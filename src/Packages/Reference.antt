-- ===== src/Packages/Reference.antt =====
-- The platforms of the core and of the variant of a board (`determineReferencedPlatformRelease`).
use arduino_cli_android.Prelude.{
  ℕ, ◌≢◌, some, lookup, Elem, Option-cases, List, [], ◌∷◌, ◌==◌, nat_eq, list_eq, list_beq_iff, ◌≡◌,
  ◌⊎◌, refl, subst, inl, inr, Bool-cases,
}
use arduino_cli_android.Strings.{Text, split}
use arduino_cli_android.Packages.{
  Release, Package, referred, Found, found, not_found, ReferenceError, Referenced, referred_release,
  with_referred, determine_by, determine_referenced_platform_release,
  get_installed_platform_release,
}
use arduino_cli_android.Packages.Installed.{IsNoBetter, installed-IsNoBetter}

pub Found-cases :
    {A : Type 0} (f : Found A)
    → ((e : ReferenceError) × (f ≡ not_found e)) ⊎ ((a : A) × (f ≡ found a))
Found-cases (not_found e) = inl (e, refl)
Found-cases (found a) = inr (a, refl)

same_found : {A : Type 0} {a b : A} → found a ≡ found b → a ≡ b
same_found h = cc h

module _ {B : Type 0} (packages : List (Text × Package B)) (architecture : Text)
    (board_release : Release B) where
  -- The package of the name has the platform of the architecture, the release is one of its installed releases, and
  -- none of them is better.
  abbrev pub IsInstalledOf : Text → Release B → Type 0
  IsInstalledOf owner r =
      (p : Package B) × (releases : List (Release B)) × (lookup owner packages ≡ some p)
      × (lookup architecture p.platforms ≡ some releases)
      × Elem r releases
      × ((other : Release B) → Elem other releases → IsNoBetter other r)

  -- The release is the board's own where no package is named, and otherwise the best installed one of that package
  -- for the board's architecture.
  abbrev pub ComesFrom : Text → Release B → Type 0
  ComesFrom owner r = ((owner ≡ []) × (r ≡ board_release)) ⊎ ((owner ≢ []) × IsInstalledOf owner r)

  referred_release-IsInstalledOf :
      (owner : Text) (r : Release B)
      → referred_release packages architecture owner ≡ found r
      → IsInstalledOf owner r
  unfolding referred_release
  referred_release-IsInstalledOf owner r h = elim (Option-cases (lookup owner packages)) [
    | inl q ↦ let h' = rw (q, referred_release) at h in cc h'
    | inr (p, q) ↦ elim (Option-cases (lookup architecture p.platforms)) [
      | inl q' ↦ let h' = rw (q, q', referred_release) at h in cc h'
      | inr (releases, q') ↦ elim (Option-cases (get_installed_platform_release releases)) [
        | inl n ↦ let h' = rw (q, q', n, referred_release) at h in cc h'
        | inr (best, n) ↦
            let same = same_found (rw (q, q', n, referred_release) at h) in
            let (m, top) = installed-IsNoBetter releases best n in
            (
              p,
              releases,
              q,
              q',
              subst (λ x. Elem x releases) same m,
              λ other k. subst (λ x. IsNoBetter other x) same (top other k),
            )
      ]
    ]
  ]

  from_package :
      (x : ℕ) (xs : Text) (r : Release B)
      → referred_release packages architecture (x ∷ xs) ≡ found r
      → ComesFrom (x ∷ xs) r
  from_package x xs r h = inr (λ e. cc e, referred_release-IsInstalledOf (x ∷ xs) r h)

  -- Not two different packages are named.
  abbrev pub Agree : Text → Text → Type 0
  Agree owner owner' = (owner ≡ []) ⊎ ((owner' ≡ []) ⊎ (owner ≡ owner'))

  abbrev pub IsReferenced : Text × Text → Text × Text → Referenced B → Type 0
  IsReferenced (owner, core) (owner', variant) f =
      (f.core ≡ core)
      × (f.variant ≡ variant)
      × ComesFrom owner f.core_release
      × ComesFrom owner' f.variant_release
      × Agree owner owner'

  determine_by-IsReferenced :
      (c v : Text × Text) (f : Referenced B)
      → determine_by packages architecture board_release c v ≡ found f
      → IsReferenced c v f
  unfolding determine_by with_referred
  determine_by-IsReferenced ([], core) ([], variant) f h =
      rw (← same_found h) (refl, refl, inl (refl, refl), inl (refl, refl), inl refl)
  determine_by-IsReferenced ([], core) (y ∷ ys, variant) f h =
      elim (Found-cases (referred_release packages architecture (y ∷ ys))) [
        | inl (e, q) ↦ let h' = rw (q, determine_by) at h in cc h'
        | inr (r, q) ↦
            rw (← same_found (rw (q, determine_by) at h))
              (refl, refl, inl (refl, refl), from_package y ys r q, inl refl)
      ]
  determine_by-IsReferenced (x ∷ xs, core) ([], variant) f h =
      elim (Found-cases (referred_release packages architecture (x ∷ xs))) [
        | inl (e, q) ↦ let h' = rw (q, determine_by) at h in cc h'
        | inr (r, q) ↦
            rw (← same_found (rw (q, determine_by) at h))
              (refl, refl, from_package x xs r q, inl (refl, refl), inr (inl refl))
      ]
  determine_by-IsReferenced (x ∷ xs, core) (y ∷ ys, variant) f h =
      elim (Bool-cases (x ∷ xs == y ∷ ys)) [
        | inr other ↦ let h' = rw (other, determine_by) at h in cc h'
        | inl same ↦
            let is_same = (list_beq_iff (x ∷ xs) (y ∷ ys)).0 same in
            elim (Found-cases (referred_release packages architecture (x ∷ xs))) [
              | inl (e, q) ↦ let h' = rw (same, q, determine_by) at h in cc h'
              | inr (r, q) ↦ rw (← same_found (rw (same, q, determine_by) at h)) (
                refl,
                refl,
                from_package x xs r q,
                from_package y ys r
                    (subst (λ o. referred_release packages architecture o ≡ found r) is_same q),
                inr (inr is_same),
              )
            ]
      ]

  -- The core and the variant that are found are those named by the properties of the board; each comes from the
  -- board's own release where the property names no package, and otherwise from an installed release of that
  -- package for the architecture of the board that no other installed one is better than, and the two never name
  -- different packages.
  pub determine-IsReferenced :
      (core variant : Text) (f : Referenced B)
      → determine_referenced_platform_release packages architecture core variant board_release
        ≡ found f
      → IsReferenced (referred (split b':' core)) (referred (split b':' variant)) f
  unfolding determine_referenced_platform_release
  determine-IsReferenced core variant f h =
      determine_by-IsReferenced (referred (split b':' core)) (referred (split b':' variant)) f h

  -- Where the properties name no package there is no error.
  pub determine-own :
      (core variant : Text)
      → (referred (split b':' core)).0 ≡ []
      → (referred (split b':' variant)).0 ≡ []
      → (f : Referenced B) × (determine_referenced_platform_release packages architecture core
            variant board_release
          ≡ found f)
  unfolding determine_referenced_platform_release determine_by
  determine-own core variant h k = (
    with_referred packages architecture board_release (referred (split b':' core))
        (referred (split b':' variant)) board_release,
    rw (h, k, determine_by) refl,
  )
