-- ===== src/Detector/Finder.antt =====
-- The missing header in the errors of the preprocessor (`IncludesFinderWithRegExp` of detector.go).
use arduino_cli_android.Prelude.{
  ℕ, Bool, true, ◌&&◌, ◌||◌, List, [], ◌∷◌, Option, none, some, ◌==◌, nat_eq, leb, if◌then◌else◌,
  drop, length, member,
}
use arduino_cli_android.Strings.{Text, codes, contains, split, trim_space, has_prefix}

-- `\s` of a regular expression, and `[0-9 |]`.
unfoldable pub is_blank : ℕ → Bool
is_blank c = member c (codes "\t\n\r ") || c == 12

unfoldable pub is_margin : ℕ → Bool
is_margin c = (leb b'0' c && leb c b'9') || (c == b' ' || c == b'|')

unfoldable pub skip_while : (ℕ → Bool) → Text → Text
skip_while test [] = []
skip_while test (c ∷ s) = let rest = skip_while test s in if test c then rest else c ∷ s

unfoldable pub after_literal : Text → Text → Option Text
after_literal literal s = if has_prefix literal s then some (drop (length literal) s) else none

unfoldable pub after_one_of : List ℕ → Text → Option Text
after_one_of chars [] = none
after_one_of chars (c ∷ s) = if member c chars then some s else none

-- The text before the last closing sign of the word.
unfoldable pub before_last_sign : Text → Option Text
before_last_sign [] = none
before_last_sign (c ∷ s) =
    let rest = before_last_sign s in
    if is_blank c then none else elim rest [
      | some t ↦ some (c ∷ t)
      | none ↦ if c == b'"' || c == b'>' then some [] else none
    ]

-- The chain of the parts of the expression.
infixl 5 ◌then_read◌
abbrev pub ◌then_read◌ : Option Text → (Text → Option Text) → Option Text
none then_read f = none
(some s) then_read f = f s

-- `(\S+)[">]`, where `\S+` takes all it can and at least one character.
unfoldable pub capture : Text → Option Text
capture [] = none
capture (c ∷ s) =
    if is_blank c then none else elim (before_last_sign s) [ none ↦ none | some t ↦ some (c ∷ t) ]

-- The expression at the start of a line. Blanks and margin run into each other only at spaces, so
-- that taking the longest of each loses no match.
unfoldable pub match_here : Text → Option Text
match_here s =
    after_literal (codes "#") (skip_while is_blank (skip_while is_margin (skip_while is_blank s)))
    then_read (λ t. after_literal (codes "include") (skip_while (λ c. c == b' ' || c == b'\t') t))
    then_read (λ t. after_one_of (codes "<\"") (skip_while is_blank t))
    then_read capture

-- The first line start from which the expression matches.
unfoldable pub find_from : Bool → Text → Option Text
find_from at_start [] = none
find_from at_start (c ∷ s) =
    let rest = find_from (c == b'\n') s in
    elim (if at_start then match_here (c ∷ s) else none) [ some h ↦ some h | none ↦ rest ]

-- The parts of a line; `none` is the panic where the part with the error is the last.
unfoldable pub in_parts : List Text → Option (Option Text)
in_parts [] = some none
in_parts (part ∷ parts) =
    let rest = in_parts parts in
    if contains (codes "fatal error") part
    then elim parts [ [] ↦ none | next ∷ _ ↦ some (some (trim_space next)) ]
    else rest

unfoldable pub in_lines : List Text → Option Text
in_lines [] = some []
in_lines (line ∷ lines) =
    let rest = in_lines lines in
    elim (in_parts (split b':' line)) [ none ↦ none | some none ↦ rest | some (some h) ↦ some h ]

unfoldable pub find_include_for_old_compilers : Text → Option Text
find_include_for_old_compilers source = in_lines (split b'\n' source)

unfoldable pub includes_finder_with_reg_exp : Text → Option Text
includes_finder_with_reg_exp source = elim (find_from true source) [
  | some h ↦ some (trim_space h)
  | none ↦ find_include_for_old_compilers source
]
