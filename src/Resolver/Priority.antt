-- ===== src/Resolver/Priority.antt =====
-- The number that `ComputePriority` returns orders libraries by a fixed list of criteria.
use arduino_cli_android.Prelude.{
  ℕ, ◌+◌, ◌*◌, ◌<◌, ◌≤◌, Bool, true, false, some, ◌≡◌, ◌≢◌, ◌⊎◌, ◌↔◌, inl, inr, arith,
  if◌then◌else◌, list_eq, nat_eq, ◌%◌,
}
use native.Mathlib.Decide.{dec_lt}
use arduino_cli_android.Strings.{Text, trim_suffix}
use arduino_cli_android.Libraries.{
  Library, is_compatible_with, is_optimized_for_architecture, is_architecture_independent,
}
use arduino_cli_android.Libraries.Location.{
  LibraryLocation, ide_builtin, platform_builtin, referenced_platform_builtin, unmanaged,
}
use arduino_cli_android.Resolver.{
  name_bonus, header_bonus, architecture_bonus, location_bonus, compute_priority, simplify, ext,
}

-- The name criterion counts hundreds, and at most seven of them.
name_bonus_hundreds :
    (name dir_name header : Text)
    → (name_bonus name dir_name header % 100 ≡ 0) × (name_bonus name dir_name header ≤ 700)
unfolding name_bonus
name_bonus_hundreds name dir_name header = (ground arith, ground arith)

-- The criteria for libraries that were not given on the command line, the weightiest first: a
-- library that suits the architecture, then a name near to the header's, then a library made for
-- the architecture, then the place.
abbrev place : LibraryLocation → ℕ
place ide_builtin = 0
place referenced_platform_builtin = 1
place platform_builtin = 2
place _ = 3

abbrev one_if : Bool → ℕ
one_if b = if b then 1 else 0

-- Four criteria in one number, of which each outweighs those after it.
abbrev weighed : ℕ → ℕ → ℕ → ℕ → ℕ
weighed c n o k = 1000 * c + 10 * o + n + k

abbrev First : (c n o k c' n' o' k' : ℕ) → Type 0
First c n o k c' n' o' k' =
    (c' < c) ⊎ ((c' ≡ c) × ((n' < n) ⊎ ((n' ≡ n) × ((o' < o) ⊎ ((o' ≡ o) × (k' < k))))))

module _ (c n o k c' n' o' k' : ℕ) (n_hundreds : (n % 100 ≡ 0) × (n ≤ 700))
    (n'_hundreds : (n' % 100 ≡ 0) × (n' ≤ 700)) (o_le : (o ≤ c) × (c ≤ 1))
    (o'_le : (o' ≤ c') × (c' ≤ 1)) (k_le : (k ≤ 3) × (k' ≤ 3)) where
  by-First : weighed c' n' o' k' < weighed c n o k → First c n o k c' n' o' k'
  by-First h = elim (dec_lt c' c) [
    | yes a ↦ inl a
    | no a ↦ inr (
      omega arith,
      elim (dec_lt n' n) [
        | yes b ↦ inl b
        | no b ↦ inr (
          omega arith,
          elim (dec_lt o' o) [ yes d ↦ inl d | no d ↦ inr (omega arith, omega arith) ],
        )
      ],
    )
  ]

  by_weight : First c n o k c' n' o' k' → weighed c' n' o' k' < weighed c n o k
  by_weight h = omega arith

one_if_le : (b : Bool) → one_if b ≤ 1
one_if_le true = omega arith
one_if_le false = omega arith

module _ (header arch : Text) where
  -- `lib` comes before `other` by the first criterion on which they differ.
  unfoldable pub Outranks : Library → Library → Type 0
  Outranks lib other =
      let c = one_if (is_compatible_with lib arch) in
      let c' = one_if (is_compatible_with other arch) in
      let n = header_bonus lib header in
      let n' = header_bonus other header in
      let o = one_if (is_optimized_for_architecture lib arch) in
      let o' = one_if (is_optimized_for_architecture other arch) in
      (c' < c)
      ⊎ ((c' ≡ c)
          × ((n' < n)
              ⊎ ((n' ≡ n) × ((o' < o) ⊎ ((o' ≡ o) × (place other.location < place lib.location))))))

  priority_parts :
      (lib : Library) (p : ℕ)
      → lib.location ≢ unmanaged
      → compute_priority lib header arch ≡ some p
      → (p
          ≡ 1000 * one_if (is_compatible_with lib arch)
            + 10 * one_if (is_optimized_for_architecture lib arch)
            + header_bonus lib header
            + place lib.location)
        × (one_if (is_optimized_for_architecture lib arch) ≤ one_if (is_compatible_with lib arch))
  unfolding compute_priority location_bonus architecture_bonus is_compatible_with
      is_architecture_independent
  priority_parts lib p u h = (ground arith, ground arith)

  header_bonus_hundreds :
      (lib : Library) → (header_bonus lib header % 100 ≡ 0) × (header_bonus lib header ≤ 700)
  unfolding header_bonus
  header_bonus_hundreds lib =
      name_bonus_hundreds (simplify lib.name) (simplify lib.dir_name)
        (simplify (trim_suffix (ext header) header))

  place_le : (l : LibraryLocation) → place l ≤ 3
  place_le l = ground arith

  -- Of two libraries that were not given on the command line, the first has the higher priority
  -- exactly when it outranks the other: by the architecture, then by the name, then by being made
  -- for the architecture, then by the place.
  pub priority_iff_Outranks :
      (lib other : Library) (p q : ℕ)
      → lib.location ≢ unmanaged
      → other.location ≢ unmanaged
      → compute_priority lib header arch ≡ some p
      → compute_priority other header arch ≡ some q
      → (q < p) ↔ Outranks lib other
  unfolding Outranks
  priority_iff_Outranks lib other p q u v hp hq =
      let (a, a') = priority_parts lib p u hp in
      let (b, b') = priority_parts other q v hq in
      let c = one_if (is_compatible_with lib arch) in
      let n = header_bonus lib header in
      let o = one_if (is_optimized_for_architecture lib arch) in
      let c' = one_if (is_compatible_with other arch) in
      let n' = header_bonus other header in
      let o' = one_if (is_optimized_for_architecture other arch) in
      let k = place lib.location in
      let k' = place other.location in
      let hn = header_bonus_hundreds lib in
      let hn' = header_bonus_hundreds other in
      (
        λ h.
            by-First c n o k c' n' o' k' hn hn' (a', one_if_le (is_compatible_with lib arch))
              (b', one_if_le (is_compatible_with other arch))
              (place_le lib.location, place_le other.location) (omega (arith, h, a, b)),
        λ h. omega (
          arith,
          by_weight c n o k c' n' o' k' hn hn' (a', one_if_le (is_compatible_with lib arch))
              (b', one_if_le (is_compatible_with other arch))
              (place_le lib.location, place_le other.location) h,
          a,
          b,
        ),
      )

  -- A library given on the command line has a higher priority than any that was not.
  pub unmanaged_outranks :
      (lib other : Library) (p q : ℕ)
      → lib.location ≡ unmanaged
      → other.location ≢ unmanaged
      → compute_priority lib header arch ≡ some p
      → compute_priority other header arch ≡ some q
      → q < p
  unfolding compute_priority location_bonus
  unmanaged_outranks lib other p q u v hp hq =
      let (b, b') = priority_parts other q v hq in
      let (d, d') = header_bonus_hundreds other in
      let top : 10000 ≤ p = ground arith in
      omega
        (arith, top, b, b', d', place_le other.location, one_if_le (is_compatible_with other arch))
