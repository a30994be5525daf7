-- ===== src/Prelude/Distinct.antt =====
-- Lists without repetition, by the Boolean test of membership, and the removal of one item.
use mathlib.Core.Path.{◌≡◌, refl}
use mathlib.Core.Bool.{true, false, ◌||◌}
use mathlib.Core.List.{List, [], ◌∷◌, ◌++◌}
use Prim.Native.Nat.{◌+◌}
use native.Mathlib.Omega.{arith}
use arduino_cli_android.Prelude.Tests.{if◌then◌else◌}
use arduino_cli_android.Prelude.Lists.{length, All}
use arduino_cli_android.Prelude.Equality.{Eq, ◌==◌, member}

module _ {A : Type 0} ⦃e : Eq A⦄ where
  abbrev pub Uniq : List A → Type 0
  Uniq [] = Unit
  Uniq (x ∷ xs) = (member x xs ≡ false) × Uniq xs

  -- The list without its first item equal to `a`.
  unfoldable pub erase : A → List A → List A
  erase a [] = []
  erase a (x ∷ xs) = if x == a then xs else x ∷ erase a xs

  pub member-append : (a : A) (xs ys : List A) → member a (xs ++ ys) ≡ (member a xs || member a ys)
  member-append a [] ys = refl
  member-append a (x ∷ xs) ys = ground (arith, member-append a xs ys)

  -- Removing is the only way an item is lost, and it goes for good from a list without repetition.
  pub member-erase :
      (a j : A) (xs : List A)
      → Uniq xs
      → member j (erase a xs) ≡ (if a == j then false else member j xs)
  unfolding erase
  member-erase a j [] u = ground arith
  member-erase a j (x ∷ xs) u =
      ground (arith, member-erase a j xs u.1, e.test_iff x a, e.test_iff a j, e.test_iff x j)

  pub erase-Uniq : (a : A) (xs : List A) → Uniq xs → Uniq (erase a xs)
  unfolding erase
  erase-Uniq a [] u = tt
  erase-Uniq a (x ∷ xs) u =
      ground (arith, member-erase a x xs u.1, erase-Uniq a xs u.1, e.test_iff a x, e.test_iff x a)

  pub length-erase :
      (a : A) (xs : List A) → length (erase a xs) + (if member a xs then 1 else 0) ≡ length xs
  unfolding erase
  length-erase a [] = refl
  length-erase a (x ∷ xs) = ground (arith, length-erase a xs)

  pub erase_id : (a : A) (xs : List A) → member a xs ≡ false → erase a xs ≡ xs
  unfolding erase
  erase_id a [] h = refl
  erase_id a (x ∷ xs) h = ground (arith, erase_id a xs)

  -- A new item at the end keeps a list without repetition.
  pub snoc-Uniq : (a : A) (xs : List A) → Uniq xs → member a xs ≡ false → Uniq (xs ++ (a ∷ []))
  snoc-Uniq a [] u h = (refl, tt)
  snoc-Uniq a (x ∷ xs) u h =
      ground
        (arith, snoc-Uniq a xs u.1, member-append x xs (a ∷ []), e.test_iff a x, e.test_iff x a)

  -- What holds of every member holds at every place.
  pub All-of_member :
      (Q : A → Type 0) (xs : List A) → ((a : A) → member a xs ≡ true → Q a) → All Q xs
  All-of_member Q [] h = tt
  All-of_member Q (x ∷ xs) h =
      (h x (ground (arith, e.test_iff x x)), All-of_member Q xs (λ a m. h a (ground (arith, m))))
