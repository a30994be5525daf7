-- ===== src/Resolver/Places.antt =====
-- Which libraries the scans of the resolver take, by their locations.
use arduino_cli_android.Prelude.{
  ℕ, true, Option, none, some, ◌≡◌, refl, ◌==◌, ◌⊎◌, ◌↔◌, ◌≢◌, inl, inr, arith, Bool-cases, sym,
  ◌∙◌, nat_eq,
}
use arduino_cli_android.Libraries.{Library}
use arduino_cli_android.Libraries.Location.{
  ide_builtin, platform_builtin, referenced_platform_builtin, user, unmanaged, profile,
}
use arduino_cli_android.Libraries.Collection.{location_beq_iff, location_eq}
use arduino_cli_android.Resolver.{
  is_ide_builtin, is_user_or_unmanaged, is_of_platform, same_pointer,
}

-- The library is bundled with the platform.
abbrev pub IsOfPlatform : Option ℕ → Library → Type 0
IsOfPlatform platform lib =
    ((lib.location ≡ platform_builtin) ⊎ (lib.location ≡ referenced_platform_builtin))
    × (lib.container_platform ≡ platform)

-- One of the scans takes the library: it is built in, the user's, given on the command line, or bundled with one of
-- the two platforms.
abbrev pub IsScanned : Option ℕ → Option ℕ → Library → Type 0
IsScanned target actual lib =
    (((lib.location ≡ ide_builtin) ⊎ ((lib.location ≡ user) ⊎ (lib.location ≡ unmanaged)))
      ⊎ IsOfPlatform target lib)
    ⊎ IsOfPlatform actual lib

-- The same, by the tests of the scans.
abbrev pub IsTaken : Option ℕ → Option ℕ → Library → Type 0
IsTaken target actual lib =
    (((is_ide_builtin lib ≡ true) ⊎ (is_user_or_unmanaged lib ≡ true))
      ⊎ (is_of_platform target lib ≡ true))
    ⊎ (is_of_platform actual lib ≡ true)

pub same_pointer_iff : (a b : Option ℕ) → (same_pointer a b ≡ true) ↔ (a ≡ b)
unfolding same_pointer
same_pointer_iff none none = (λ h. refl, λ h. refl)
same_pointer_iff (some a) (some b) = (λ h. ground arith, λ h. ground arith)
same_pointer_iff none (some b) = (λ h. cc h, λ h. cc h)
same_pointer_iff (some a) none = (λ h. cc h, λ h. cc h)

ide_builtin_iff : (lib : Library) → (is_ide_builtin lib ≡ true) ↔ (lib.location ≡ ide_builtin)
unfolding is_ide_builtin
ide_builtin_iff lib = location_beq_iff lib.location ide_builtin

user_or_unmanaged_iff :
    (lib : Library)
    → (is_user_or_unmanaged lib ≡ true) ↔ ((lib.location ≡ user) ⊎ (lib.location ≡ unmanaged))
unfolding is_user_or_unmanaged
user_or_unmanaged_iff lib =
    let u = location_beq_iff lib.location user in
    let v = location_beq_iff lib.location unmanaged in
    (
      λ h. elim (Bool-cases (lib.location == user)) [
        | inl e ↦ inl (u.0 e)
        | inr e ↦ inr (v.0 (ground (arith, h, e)))
      ],
      λ h. elim h [ inl e ↦ ground (arith, u.1 e) | inr e ↦ ground (arith, v.1 e) ],
    )

bundled_iff :
    (platform : Option ℕ) (lib : Library)
    → (is_of_platform platform lib ≡ true) ↔ IsOfPlatform platform lib
unfolding is_of_platform
bundled_iff platform lib =
    let u = location_beq_iff lib.location platform_builtin in
    let v = location_beq_iff lib.location referenced_platform_builtin in
    let q = same_pointer_iff lib.container_platform platform in
    (
      λ h. (
        elim (Bool-cases (lib.location == platform_builtin)) [
          | inl e ↦ inl (u.0 e)
          | inr e ↦ inr (v.0 (ground (arith, h, e)))
        ],
        q.0 (ground (arith, h)),
      ),
      λ (place, e). elim place [
        | inl w ↦ ground (arith, u.1 w, q.1 e)
        | inr w ↦ ground (arith, v.1 w, q.1 e)
      ],
    )

pub by_place_iff :
    (target actual : Option ℕ) (lib : Library)
    → IsTaken target actual lib ↔ IsScanned target actual lib
by_place_iff target actual lib =
    let (b, b') = ide_builtin_iff lib in
    let (u, u') = user_or_unmanaged_iff lib in
    let (t, t') = bundled_iff target lib in
    let (a, a') = bundled_iff actual lib in
    (
      λ h. elim h [
        | inl (inl (inl x)) ↦ inl (inl (inl (b x)))
        | inl (inl (inr x)) ↦ inl (inl (inr (u x)))
        | inl (inr x) ↦ inl (inr (t x))
        | inr x ↦ inr (a x)
      ],
      λ h. elim h [
        | inl (inl (inl x)) ↦ inl (inl (inl (b' x)))
        | inl (inl (inr x)) ↦ inl (inl (inr (u' x)))
        | inl (inr x) ↦ inl (inr (t' x))
        | inr x ↦ inr (a' x)
      ],
    )

-- A library of a sketch profile is never scanned.
pub scanned-not_profile :
    (target actual : Option ℕ) (lib : Library)
    → IsScanned target actual lib
    → lib.location ≢ profile
scanned-not_profile target actual lib (inl (inl (inl h))) e = cc (sym h ∙ e)
scanned-not_profile target actual lib (inl (inl (inr (inl h)))) e = cc (sym h ∙ e)
scanned-not_profile target actual lib (inl (inl (inr (inr h)))) e = cc (sym h ∙ e)
scanned-not_profile target actual lib (inl (inr (inl h, _))) e = cc (sym h ∙ e)
scanned-not_profile target actual lib (inl (inr (inr h, _))) e = cc (sym h ∙ e)
scanned-not_profile target actual lib (inr (inl h, _)) e = cc (sym h ∙ e)
scanned-not_profile target actual lib (inr (inr h, _)) e = cc (sym h ∙ e)
