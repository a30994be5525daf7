-- ===== src/Cpp.antt =====
-- internal/arduino/builder/cpp/cpp.go: the strings of the preprocessor and its line markers. Code
-- points stand for the runes of a text in UTF-8.
pub mod Quoting
pub mod DepFile
mod Tests
use arduino_cli_android.Prelude.{
  ℕ, zero, suc, ◌+◌, ◌-◌, ◌/◌, Bool, true, false, List, [], ◌∷◌, ◌++◌, Option, none, some, ◌==◌,
  nat_eq, ltb, if◌then◌else◌,
}
use arduino_cli_android.Strings.{Text, ℤ, NumError, codes, replace_all, cut, atoi, is_empty}

unfoldable pub quote_string : Text → Text
quote_string str =
    b'"'
    ∷ (replace_all (codes "\"") (codes "\\\"") (replace_all (codes "\\") (codes "\\\\") str)
        ++ (b'"' ∷ []))

-- The number of bytes of a rune in UTF-8, and the first of them.
unfoldable pub rune_length : ℕ → ℕ
rune_length c = if ltb c 0x80 then 1 else if ltb c 0x800 then 2 else if ltb c 0x10000 then 3 else 4

unfoldable pub first_byte : ℕ → ℕ
first_byte c =
    if ltb c 0x80
    then c
    else if ltb c 0x800
    then 0xC0 + c / 64
    else if ltb c 0x10000
    then 0xE0 + c / 4096
    else 0xF0 + c / 262144

abbrev pub repeat : ℕ → ℕ → Text
repeat zero c = []
repeat (suc n) c = c ∷ repeat n c

-- What is added for the rune after a backslash: its first byte as a character, and then, since the
-- position moves on by the width of the backslash, U+FFFD for each byte that is left of it.
unfoldable pub escaped_rune : ℕ → Text
escaped_rune c = first_byte c ∷ repeat (rune_length c - 1) 0xFFFD

abbrev pub prepend : Text → Option (Text × Text) → Option (Text × Text)
prepend added none = none
prepend added (some (res, rest)) = some (added ++ res, rest)

-- The loop of `ParseString` after the opening quote; `none` is the end of the line. The flag says that
-- a backslash was read.
unfoldable pub parse_chars : Bool → Text → Option (Text × Text)
parse_chars escaped [] = none
parse_chars true (c ∷ s) = prepend (escaped_rune c) (parse_chars false s)
parse_chars false (c ∷ s) =
    let rest = parse_chars (c == b'\\') s in
    if c == b'\\' then rest else if c == b'"' then some ([], s) else prepend (c ∷ []) rest

-- The result where no string is found: the empty text, the whole line and false.
abbrev pub or_line : Text → Option (Text × Text) → Text × Text × Bool
or_line line none = ([], line, false)
or_line line (some (res, rest)) = (res, rest, true)

unfoldable pub parse_string : Text → Text × Text × Bool
parse_string [] = ([], [], false)
parse_string (c ∷ s) =
    if c == b'"' then or_line (c ∷ s) (parse_chars false s) else ([], c ∷ s, false)

unfoldable pub starts_with : ℕ → Text → Bool
starts_with c [] = false
starts_with c (x ∷ s) = x == c

-- `paths.New` is of the package `go-paths-helper`; `none` is nil.
module _ {Path' : Type 0} (new_path : Text → Option Path') where
  unfoldable pub marker_name : Text × Text × Bool → Option Path'
  marker_name (str, rest, false) = none
  marker_name (str, [], true) = new_path str
  marker_name (str, c ∷ rest, true) = if c == b' ' then new_path str else none

  unfoldable pub marker_number : ℤ × Option NumError → Text → Option Path'
  marker_number (n, some e) third = none
  marker_number (n, none) third = marker_name (parse_string third)

  unfoldable pub parse_line_marker : Text → Option Path'
  parse_line_marker line = elim (cut b' ' line) [
    | none ↦ none
    | some (first, others) ↦ elim (cut b' ' others) [
      | none ↦ none
      | some (second, third) ↦
          if starts_with b'#' first then marker_number (atoi second) third else none
    ]
  ]

unfoldable pub wrap_with_hyphen_i : Text → Text
wrap_with_hyphen_i value = codes "\"-I" ++ (value ++ codes "\"")
