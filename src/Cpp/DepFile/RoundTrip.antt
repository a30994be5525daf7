-- ===== src/Cpp/DepFile/RoundTrip.antt =====
-- A dependency file, written with the escapes of make, is read back.
use arduino_cli_android.Prelude.{
  ℕ, Bool, true, false, not, ◌||◌, List, [], ◌∷◌, ◌++◌, map, ◌==◌, nat_eq, nat_beq_iff,
  if◌then◌else◌, ◌≡◌, refl, ap, sym, ◌∙◌, arith, Bool-cases, inl, inr, append_assoc, append-nil,
  All, all, &&_iff, false≢true,
}
use arduino_cli_android.Strings.{
  Text, codes, is_empty, is_space, trim_space, has_suffix-append, trim_suffix-append,
}
use arduino_cli_android.Cpp.DepFile.{
  done, plain, State, write, step_plain, step_backslash, step_dollar, step_pending, step, scan,
  drop_empty, finish, unescape_and_split, from_rows, read_dep_file,
}

-- A character as make escapes it.
unfoldable pub escaped_char : ℕ → Text
escaped_char c =
    if c == b' '
    then codes "\\ "
    else if c == b'#'
    then codes "\\#"
    else if c == b'\\'
    then codes "\\\\"
    else if c == b'$'
    then codes "$$"
    else c ∷ []

unfoldable pub escaped : Text → Text
escaped [] = []
escaped (c ∷ s) = escaped_char c ++ escaped s

-- The only blanks are spaces, and none at an end.
abbrev pub IsWord : Text → Type 0
IsWord w =
    (is_empty w ≡ false) × (trim_space w ≡ w) × (all (λ c. c == b' ' || not (is_space c)) w ≡ true)

abbrev reading : Text → List Text → State
reading current res = record { pending = plain; current = current; res = res }

not_return : (c : ℕ) → is_space c ≡ false → (c == b'\r') ≡ false
unfolding is_space
not_return c h = ground arith

step-ordinary :
    (current : Text) (res : List Text) (c : ℕ)
    → (c == b'\\') ≡ false
    → (c == b'$') ≡ false
    → is_space c ≡ false
    → step (reading current res) c ≡ done (reading (current ++ (c ∷ [])) res)
unfolding step step_pending step_plain write
step-ordinary current res c n₃ n₄ blank =
    rw (not_return c blank, step) (rw (n₃, n₄, blank, step_pending, step_plain))

scan-escaped_char :
    (current : Text) (res : List Text) (c : ℕ) (rest : Text)
    → (c == b' ' || not (is_space c)) ≡ true
    → scan (reading current res) (escaped_char c ++ rest)
      ≡ scan (reading (current ++ (c ∷ [])) res) rest
unfolding scan escaped_char step step_pending step_plain step_backslash step_dollar write
scan-escaped_char current res c rest h = elim (Bool-cases (c == b' ')) [
  | inl e ↦ rw ((nat_beq_iff c b' ').0 e)
  | inr n₁ ↦ elim (Bool-cases (c == b'#')) [
    | inl e ↦ rw ((nat_beq_iff c b'#').0 e)
    | inr n₂ ↦ elim (Bool-cases (c == b'\\')) [
      | inl e ↦ rw ((nat_beq_iff c b'\\').0 e)
      | inr n₃ ↦ elim (Bool-cases (c == b'$')) [
        | inl e ↦ rw ((nat_beq_iff c b'$').0 e)
        | inr n₄ ↦
            let blank : is_space c ≡ false = ground (arith, h, n₁) in
            rw (n₁, n₂, n₃, n₄) (rw (step-ordinary current res c n₃ n₄ blank, scan))
      ]
    ]
  ]
]

scan-escaped :
    (current : Text) (res : List Text) (w rest : Text)
    → all (λ c. c == b' ' || not (is_space c)) w ≡ true
    → scan (reading current res) (escaped w ++ rest) ≡ scan (reading (current ++ w) res) rest
unfolding escaped
scan-escaped current res [] rest h = rw (append-nil current)
scan-escaped current res (c ∷ w) rest h =
    let (hc, hw) =
      (&&_iff (c == b' ' || not (is_space c)) (all (λ c. c == b' ' || not (is_space c)) w)).0 h in
    rw (append_assoc (escaped_char c) (escaped w) rest) (
      scan-escaped_char current res c (escaped w ++ rest) hc
      ∙ (scan-escaped (current ++ (c ∷ [])) res w rest hw ∙ rw (append_assoc current (c ∷ []) w)))

-- What stands before a word: a space, or as gcc breaks a line, a space, a backslash, a newline and a space.
unfoldable pub gap : Bool → Text
gap false = b' ' ∷ []
gap true = b' ' ∷ b'\\' ∷ b'\n' ∷ b' ' ∷ []

-- The words after the first, each with whether its line is a new one, up to the newline at the end of the file.
unfoldable pub print_words : List (Bool × Text) → Text
print_words [] = b'\n' ∷ []
print_words ((broken, w) ∷ ws) = gap broken ++ (escaped w ++ print_words ws)

unfoldable pub print_dep_file : Text → List (Bool × Text) → Text
print_dep_file object ws = escaped (object ++ codes ":") ++ print_words ws

abbrev pub words : List (Bool × Text) → List Text
words ws = map (λ x. x.1) ws

-- The gap ends a word.
scan-gap :
    (broken : Bool) (x : ℕ) (w : Text) (res : List Text) (rest : Text)
    → scan (reading (x ∷ w) res) (gap broken ++ rest)
      ≡ scan (reading [] (res ++ ((x ∷ w) ∷ []))) rest
unfolding scan step step_pending step_plain step_backslash write is_space gap
scan-gap false x w res rest = refl
scan-gap true x w res rest = refl

-- From the end of a word on, the file holds the words that follow.
scan-print_words :
    (x : ℕ) (w : Text) (res : List Text) (ws : List (Bool × Text))
    → All IsWord (words ws)
    → scan (reading (x ∷ w) res) (print_words ws) ≡ done (reading [] (res ++ ((x ∷ w) ∷ words ws)))
unfolding print_words scan step step_pending step_plain is_space
scan-print_words x w res [] h = refl
scan-print_words x w res ((broken, []) ∷ ws) h = absurd (false≢true (sym h.0.0))
scan-print_words x w res ((broken, y ∷ v) ∷ ws) h =
    let res' = res ++ ((x ∷ w) ∷ []) in
    scan-gap broken x w res (escaped (y ∷ v) ++ print_words ws)
    ∙ (scan-escaped [] res' (y ∷ v) (print_words ws) h.0.2
        ∙ (scan-print_words y v res' ws h.1
            ∙ ap (λ r. done (reading [] r)) (append_assoc res ((x ∷ w) ∷ []) ((y ∷ v) ∷ words ws))))

-- The words that the loop has found, when each is a word.
drop_empty-words : (ws : List Text) → All IsWord ws → drop_empty (map trim_space ws) ≡ ws
unfolding drop_empty
drop_empty-words [] h = refl
drop_empty-words (w ∷ ws) h = rw (h.0.1, h.0.0, drop_empty-words ws h.1)

unescape_and_split-words :
    (w : Text) (ws : List (Bool × Text))
    → All IsWord (w ∷ words ws)
    → unescape_and_split (escaped w ++ print_words ws) ≡ done (w ∷ words ws)
unfolding unescape_and_split finish
unescape_and_split-words [] ws h = absurd (false≢true (sym h.0.0))
unescape_and_split-words (x ∷ w) ws h =
    let found =
      scan-escaped [] [] (x ∷ w) (print_words ws) h.0.2 ∙ scan-print_words x w [] ws h.1 in
    rw (found, unescape_and_split) (ap done (drop_empty-words ((x ∷ w) ∷ words ws) h))

-- A file that names an object, a colon after it, and then dependencies, with the escapes of make, is read as
-- that object and those dependencies. Before each dependency stands a space, or a space and a line
-- broken by a backslash, and a newline ends the file. A name may hold spaces, hashes, dollars and
-- backslashes, but it is not empty and has no other blanks and no blank at an end.
pub read_dep_file-print_dep_file :
    (object : Text) (ws : List (Bool × Text))
    → All IsWord ((object ++ codes ":") ∷ words ws)
    → read_dep_file (print_dep_file object ws)
      ≡ done (record { object_file = object; dependencies = words ws })
unfolding read_dep_file from_rows print_dep_file
read_dep_file-print_dep_file object ws h =
    rw (unescape_and_split-words (object ++ codes ":") ws h, read_dep_file)
      (rw (has_suffix-append (codes ":") object, trim_suffix-append (codes ":") object, from_rows)
        refl)
