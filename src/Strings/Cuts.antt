-- ===== src/Strings/Cuts.antt =====
-- `strings.CutPrefix`, and `strings.Cut` at a separator that is not empty.
use arduino_cli_android.Prelude.{
  inl, inr, ℕ, true, false, [], ◌∷◌, ◌++◌, Option, none, some, ◌≡◌, refl, ◌==◌, nat_eq,
  if◌then◌else◌, arith, length, drop, Bool-cases,
}
use arduino_cli_android.Strings.Search.{Text, has_prefix}
use arduino_cli_android.Strings.Split.{lacks}

unfoldable pub cut_prefix : Text → Text → Option Text
cut_prefix prefix s = if has_prefix prefix s then some (drop (length prefix) s) else none

abbrev pub put_before : Text → Option (Text × Text) → Option (Text × Text)
put_before w none = none
put_before w (some (a, b)) = some (w ++ a, b)

unfoldable pub cut_text : Text → Text → Option (Text × Text)
cut_text sep [] = none
cut_text sep (c ∷ s) =
    let rest = cut_text sep s in
    if has_prefix sep (c ∷ s)
    then some ([], drop (length sep) (c ∷ s))
    else put_before (c ∷ []) rest

put_before_twice :
    (c : ℕ) (w : Text) (o : Option (Text × Text))
    → put_before (c ∷ []) (put_before w o) ≡ put_before (c ∷ w) o
put_before_twice c w none = refl
put_before_twice c w (some (a, b)) = refl

-- Text without the separator's first character holds no start of it.
pub cut_text-skip :
    (c : ℕ) (q w s : Text)
    → lacks c w ≡ true
    → cut_text (c ∷ q) (w ++ s) ≡ put_before w (cut_text (c ∷ q) s)
unfolding cut_text has_prefix lacks
cut_text-skip c q [] s h = elim (cut_text (c ∷ q) s) as (λ o. o ≡ put_before [] o) [
  | none ↦ refl
  | some (a, b) ↦ refl
]
cut_text-skip c q (x ∷ w) s h =
    let other : has_prefix (c ∷ q) (x ∷ (w ++ s)) ≡ false = ground (arith, h) in
    let rest : lacks c w ≡ true = ground (arith, h) in
    rw (other, cut_text)
      (rw (cut_text-skip c q w s rest) (put_before_twice x w (cut_text (c ∷ q) s)))

pub has_prefix-plain :
    (c : ℕ) (p w s : Text)
    → lacks c p ≡ true
    → has_prefix p w ≡ false
    → has_prefix p (w ++ (c ∷ s)) ≡ false
unfolding has_prefix lacks
has_prefix-plain c [] w s h n = n
has_prefix-plain c (x ∷ p) [] s h n = ground arith
has_prefix-plain c (x ∷ p) (y ∷ w) s h n = elim (Bool-cases (x == y)) [
  | inl e ↦
      let rest = has_prefix-plain c p w s (ground (arith, h)) (ground (arith, e, n)) in
      ground (arith, e, rest)
  | inr e ↦ ground (arith, e)
]
