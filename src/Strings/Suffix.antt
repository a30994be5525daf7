-- ===== src/Strings/Suffix.antt =====
-- `HasSuffix` and `TrimSuffix` on a text with the suffix at its end.
use mathlib.Core.List.{reverse, reverse-append}
use arduino_cli_android.Prelude.{
  ◌-◌, true, [], ◌∷◌, ◌++◌, ◌≡◌, refl, ap, ◌∙◌, length, length-append, take, arith,
}
use arduino_cli_android.Strings.Search.{
  Text, has_prefix, has_suffix, trim_suffix, has_prefix-append,
}

pub has_suffix-append : (p s : Text) → has_suffix p (s ++ p) ≡ true
unfolding has_suffix
has_suffix-append p s =
    ap (has_prefix (reverse p)) (reverse-append s p) ∙ has_prefix-append (reverse p) (reverse s)

take-append : (s p : Text) → take (length s) (s ++ p) ≡ s
take-append [] [] = refl
take-append [] (x ∷ p) = refl
take-append (x ∷ s) p = ap (λ (t : Text). x ∷ t) (take-append s p)

before_suffix : (s p : Text) → length (s ++ p) - length p ≡ length s
before_suffix s p = omega (arith, length-append s p)

pub trim_suffix-append : (p s : Text) → trim_suffix p (s ++ p) ≡ s
unfolding trim_suffix
trim_suffix-append p s = rw (has_suffix-append p s) (rw (before_suffix s p) (take-append s p))
