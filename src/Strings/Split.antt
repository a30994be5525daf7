-- ===== src/Strings/Split.antt =====
-- `strings.Split` and `SplitN` at one character, `Join`, `TrimSpace`.
use arduino_cli_android.Prelude.{
  ℕ, Bool, true, not, ◌&&◌, ◌||◌, List, [], ◌∷◌, ◌++◌, Option, none, some, ◌≡◌, refl, ◌==◌, nat_eq,
  leb, if◌then◌else◌, arith, all, All, ap, ◌∙◌, ◌≤◌, length, ◌+◌,
}
use arduino_cli_android.Strings.Search.{Text, is_empty, count}

-- A character joins the first piece.
abbrev pub push_first : ℕ → List Text → List Text
push_first x [] = (x ∷ []) ∷ []
push_first x (w ∷ ws) = (x ∷ w) ∷ ws

unfoldable pub split : ℕ → Text → List Text
split c [] = [] ∷ []
split c (x ∷ s) = let rest = split c s in if x == c then [] ∷ rest else push_first x rest

-- `strings.SplitN(s, sep, 2)`: `none` where the separator is missing and one piece comes back.
unfoldable pub cut : ℕ → Text → Option (Text × Text)
cut c [] = none
cut c (x ∷ s) =
    let rest = cut c s in
    if x == c then some ([], s) else elim rest [ none ↦ none | some (a, b) ↦ some (x ∷ a, b) ]

unfoldable pub join : Text → List Text → Text
join sep [] = []
join sep (w ∷ []) = w
join sep (w ∷ v ∷ ws) = w ++ (sep ++ join sep (v ∷ ws))

-- `unicode.IsSpace`.
unfoldable pub is_space : ℕ → Bool
is_space c =
    (leb 9 c && leb c 13)
    || (c == 32
        || (c == 0x85
            || (c == 0xA0
                || (c == 0x1680
                    || ((leb 0x2000 c && leb c 0x200A)
                        || (c == 0x2028
                            || (c == 0x2029 || (c == 0x202F || (c == 0x205F || c == 0x3000)))))))))

unfoldable pub trim_left : Text → Text
unfolding is_space
trim_left [] = []
trim_left (x ∷ s) = let rest = trim_left s in if is_space x then rest else x ∷ s

unfoldable pub trim_right : Text → Text
unfolding is_space
trim_right [] = []
trim_right (x ∷ s) = let rest = trim_right s in if is_space x && is_empty rest then [] else x ∷ rest

unfoldable pub trim_space : Text → Text
unfolding trim_left trim_right
trim_space s = trim_right (trim_left s)

-- No character of the text is `c`.
unfoldable pub lacks : ℕ → Text → Bool
lacks c s = all (λ x. not (x == c)) s

pub split-lacks : (c : ℕ) (s : Text) → lacks c s ≡ true → split c s ≡ s ∷ []
unfolding split lacks
split-lacks c [] h = refl
split-lacks c (x ∷ s) h = ground (arith, split-lacks c s)

-- There is one piece more than there are separators.
length-push_first : (x : ℕ) (ws : List Text) → 1 ≤ length ws → length (push_first x ws) ≡ length ws
length-push_first x [] h = absurd (omega arith)
length-push_first x (w ∷ ws) h = refl

pub length-split : (c : ℕ) (s : Text) → length (split c s) ≡ count c s + 1
unfolding split count
length-split c [] = refl
length-split c (x ∷ s) =
    let rest = length-split c s in
    ground (arith, rest, length-push_first x (split c s) (omega (arith, rest)))

-- Splitting undoes joining, where no piece holds the separator.
pub split-append : (c : ℕ) (w s : Text) → lacks c w ≡ true → split c (w ++ (c ∷ s)) ≡ w ∷ split c s
unfolding split lacks
split-append c [] s h = ground arith
split-append c (x ∷ w) s h = ground (arith, split-append c w s)

pub split-join :
    (c : ℕ) (w : Text) (ws : List Text)
    → All (λ v. lacks c v ≡ true) (w ∷ ws)
    → split c (join (c ∷ []) (w ∷ ws)) ≡ w ∷ ws
unfolding join
split-join c w [] h = split-lacks c w h.0
split-join c w (v ∷ ws) h =
    split-append c w (join (c ∷ []) (v ∷ ws)) h.0
    ∙ ap (λ (r : List Text). w ∷ r) (split-join c v ws h.1)

pub cut-append : (c : ℕ) (w s : Text) → lacks c w ≡ true → cut c (w ++ (c ∷ s)) ≡ some (w, s)
unfolding cut lacks
cut-append c [] s h = ground arith
cut-append c (x ∷ w) s h = ground (arith, cut-append c w s)

unfoldable pub no_space : Text → Bool
no_space s = all (λ x. not (is_space x)) s

trim_right_id : (s : Text) → no_space s ≡ true → trim_right s ≡ s
unfolding trim_right no_space
trim_right_id [] h = refl
trim_right_id (x ∷ s) h = ground (arith, trim_right_id s)

trim_left_id : (s : Text) → no_space s ≡ true → trim_left s ≡ s
unfolding trim_left no_space
trim_left_id [] h = refl
trim_left_id (x ∷ s) h = ground arith

pub trim_space_id : (s : Text) → no_space s ≡ true → trim_space s ≡ s
unfolding trim_space
trim_space_id s h = rw (trim_left_id s h) (trim_right_id s h)
