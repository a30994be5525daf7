-- ===== src/Cpp/Quoting.antt =====
-- `ParseString` reads what `QuoteString` writes.
use arduino_cli_android.Prelude.{
  ℕ, ◌||◌, true, false, [], ◌∷◌, ◌++◌, Option, none, some, ◌==◌, nat_eq, nat_beq_iff, if◌then◌else◌,
  ◌≡◌, refl, arith, Bool-cases, inl, inr, append_assoc,
}
use arduino_cli_android.Strings.{
  Text, codes, replace_all, replace_from, has_prefix, cut-append, atoi, lacks, ℤ, is_empty,
}
use arduino_cli_android.Cpp.{
  quote_string, escaped_rune, first_byte, rune_length, parse_chars, parse_string, parse_line_marker,
  starts_with, marker_name, marker_number,
}

-- One character as `QuoteString` writes it.
abbrev quoted_char : ℕ → Text
quoted_char c = if c == b'\\' then codes "\\\\" else if c == b'"' then codes "\\\"" else c ∷ []

abbrev quoted : Text → Text
quoted [] = []
quoted (c ∷ s) = quoted_char c ++ quoted s

-- Two passes of replacement write each character once.
two_passes :
    (s : Text)
    → replace_from (codes "\"") (codes "\\\"") 0 (replace_from (codes "\\") (codes "\\\\") 0 s)
      ≡ quoted s
unfolding replace_from has_prefix
two_passes [] = refl
two_passes (c ∷ s) = ground (arith, two_passes s)

-- A character that was escaped is ASCII, and comes back as it was.
escaped_quote : escaped_rune b'"' ≡ b'"' ∷ []
unfolding escaped_rune first_byte rune_length
escaped_quote = refl

escaped_backslash : escaped_rune b'\\' ≡ b'\\' ∷ []
unfolding escaped_rune first_byte rune_length
escaped_backslash = refl

parse_chars-quoted :
    (s rest : Text) → parse_chars false (quoted s ++ (b'"' ∷ rest)) ≡ some (s, rest)
unfolding parse_chars
parse_chars-quoted [] rest = refl
parse_chars-quoted (c ∷ s) rest = elim (Bool-cases (c == b'\\')) [
  | inl backslash ↦
      rw ((nat_beq_iff c b'\\').0 backslash) (rw (escaped_backslash, parse_chars-quoted s rest))
  | inr other ↦ elim (Bool-cases (c == b'"')) [
    | inl quote ↦ rw ((nat_beq_iff c b'"').0 quote) (rw (escaped_quote, parse_chars-quoted s rest))
    | inr plain ↦ rw (other, plain, parse_chars) (rw (other, plain, parse_chars-quoted s rest))
  ]
]

quote_string-quoted : (s : Text) → quote_string s ≡ b'"' ∷ (quoted s ++ (b'"' ∷ []))
unfolding quote_string replace_all
quote_string-quoted s = rw (two_passes s)

-- Whatever follows, `ParseString` reads a text that `QuoteString` wrote as that text, and gives back
-- what follows.
pub parse_string-quote_string :
    (str rest : Text) → parse_string (quote_string str ++ rest) ≡ (str, rest, true)
unfolding parse_string
parse_string-quote_string str rest =
    rw (quote_string-quoted str, append_assoc (quoted str) (b'"' ∷ []) rest)
      (rw (parse_chars-quoted str rest))

hash_lacks_space : lacks b' ' (codes "#") ≡ true
unfolding lacks
hash_lacks_space = refl

marker_name-read :
    {P : Type 0} (new_path : Text → Option P) (name rest : Text)
    → (is_empty rest || starts_with b' ' rest) ≡ true
    → marker_name new_path (name, rest, true) ≡ new_path name
unfolding marker_name starts_with
marker_name-read new_path name [] h = refl
marker_name-read new_path name (c ∷ rest) h = rw h

-- A line marker with a number, a quoted name and perhaps flags after a space gives the path of the
-- name.
pub parse_line_marker_lem :
    {P : Type 0} (new_path : Text → Option P) (number name flags : Text) (n : ℤ)
    → lacks b' ' number ≡ true
    → atoi number ≡ (n, none)
    → (is_empty flags || starts_with b' ' flags) ≡ true
    → parse_line_marker new_path (codes "# " ++ (number ++ (b' ' ∷ (quote_string name ++ flags))))
      ≡ new_path name
unfolding parse_line_marker marker_number starts_with
parse_line_marker_lem new_path number name flags n spaceless number_ok flags_ok =
    let others = number ++ (b' ' ∷ (quote_string name ++ flags)) in
    rw (cut-append b' ' (codes "#") others hash_lacks_space, parse_line_marker)
      (rw (cut-append b' ' number (quote_string name ++ flags) spaceless) (
        rw number_ok (
          rw (parse_string-quote_string name flags)
            (marker_name-read new_path name flags flags_ok))))
