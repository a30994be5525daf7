-- ===== src/Packages/Installed.antt =====
-- The release that `GetInstalledPlatformRelease` chooses among those that are installed.
use arduino_cli_android.Prelude.{
  ◌≤◌, true, false, List, [], ◌∷◌, some, if◌then◌else◌, ◌≡◌, ◌⊎◌, refl, sym, subst, ◌∙◌, inl, inr,
  arith, Elem, Bool-cases,
}
use arduino_cli_android.Packages.{Release, replaces, best_of, get_installed_platform_release}

module _ {B : Type 0} where
  -- The other release is not managed while this one is, or it is of the same kind and not of a higher version.
  abbrev pub IsNoBetter : Release B → Release B → Type 0
  IsNoBetter other r =
      ((r.managed ≡ true) × (other.managed ≡ false))
      ⊎ ((other.managed ≡ r.managed) × (other.version ≤ r.version))

  IsNoBetter-trans : (a b c : Release B) → IsNoBetter a b → IsNoBetter b c → IsNoBetter a c
  IsNoBetter-trans a b c (inl h) (inl k) = inl (k.0, h.1)
  IsNoBetter-trans a b c (inl h) (inr k) = inl (sym k.0 ∙ h.0, h.1)
  IsNoBetter-trans a b c (inr h) (inl k) = inl (k.0, h.0 ∙ k.1)
  IsNoBetter-trans a b c (inr h) (inr k) = inr (h.0 ∙ k.0, omega (arith, h.1, k.1))

  abbrev kept : Release B → Release B → Release B
  kept candidate best = if replaces candidate best then candidate else best

  IsNoBetter-self : (r : Release B) → IsNoBetter r r
  IsNoBetter-self r = inr (refl, omega arith)

  IsNoBetter-replaced :
      (candidate best : Release B) → replaces candidate best ≡ true → IsNoBetter best candidate
  unfolding replaces
  IsNoBetter-replaced candidate best h = elim (Bool-cases candidate.managed) [
    | inl c ↦ elim (Bool-cases best.managed) [
      | inl b ↦ inr (b ∙ sym c, ground (arith, c, b, h))
      | inr b ↦ inl (c, b)
    ]
    | inr c ↦ elim (Bool-cases best.managed) [
      | inl b ↦ absurd (ground (arith, c, b, h))
      | inr b ↦ inr (b ∙ sym c, ground (arith, c, b, h))
    ]
  ]

  IsNoBetter-left_out :
      (candidate best : Release B) → replaces candidate best ≡ false → IsNoBetter candidate best
  unfolding replaces
  IsNoBetter-left_out candidate best h = elim (Bool-cases candidate.managed) [
    | inl c ↦ elim (Bool-cases best.managed) [
      | inl b ↦ inr (c ∙ sym b, ground (arith, c, b, h))
      | inr b ↦ absurd (ground (arith, c, b, h))
    ]
    | inr c ↦ elim (Bool-cases best.managed) [
      | inl b ↦ inl (b, c)
      | inr b ↦ inr (c ∙ sym b, ground (arith, c, b, h))
    ]
  ]

  IsNoBetter-kept :
      (candidate best : Release B)
      → IsNoBetter best (kept candidate best) × IsNoBetter candidate (kept candidate best)
  IsNoBetter-kept candidate best = elim (Bool-cases (replaces candidate best)) [
    | inl e ↦ rw e (IsNoBetter-replaced candidate best e, IsNoBetter-self candidate)
    | inr e ↦ rw e (IsNoBetter-self best, IsNoBetter-left_out candidate best e)
  ]

  IsNoBetter-best_of :
      (best : Release B) (releases : List (Release B)) (other : Release B)
      → Elem other (best ∷ releases)
      → IsNoBetter other (best_of best releases)
  unfolding best_of
  IsNoBetter-best_of best [] other (inl e) = rw e (IsNoBetter-self best)
  IsNoBetter-best_of best [] other (inr never) = absurd never
  IsNoBetter-best_of best (c ∷ releases) other m =
      let (a, b) = IsNoBetter-kept c best in
      let rest = IsNoBetter-best_of (kept c best) releases in
      elim m [
        | inl e ↦ rw e (
            IsNoBetter-trans best (kept c best) (best_of (kept c best) releases) a
              (rest (kept c best) (inl refl)))
        | inr (inl e) ↦ rw e (
            IsNoBetter-trans c (kept c best) (best_of (kept c best) releases) b
              (rest (kept c best) (inl refl)))
        | inr (inr n) ↦ rest other (inr n)
      ]

  Elem-kept :
      (c best : Release B) (releases : List (Release B)) (x : Release B)
      → Elem x (kept c best ∷ releases)
      → Elem x (best ∷ c ∷ releases)
  Elem-kept c best releases x m = elim (Bool-cases (replaces c best)) [
    | inl e ↦ inr (rw e at m)
    | inr e ↦
        let m' : Elem x (best ∷ releases) = rw e at m in
        elim m' [ inl h ↦ inl h | inr h ↦ inr (inr h) ]
  ]

  Elem-best_of :
      (best : Release B) (releases : List (Release B))
      → Elem (best_of best releases) (best ∷ releases)
  unfolding best_of
  Elem-best_of best [] = inl refl
  Elem-best_of best (c ∷ releases) =
      Elem-kept c best releases (best_of (kept c best) releases)
        (Elem-best_of (kept c best) releases)

  pub installed-IsNoBetter :
      (releases : List (Release B)) (best : Release B)
      → get_installed_platform_release releases ≡ some best
      → Elem best releases × ((other : Release B) → Elem other releases → IsNoBetter other best)
  unfolding get_installed_platform_release
  installed-IsNoBetter [] best h = cc h
  installed-IsNoBetter (r ∷ releases) best h =
      let same : best_of r releases ≡ best = cc h in
      (
        subst (λ x. Elem x (r ∷ releases)) same (Elem-best_of r releases),
        λ other m. subst (λ x. IsNoBetter other x) same (IsNoBetter-best_of r releases other m),
      )

  -- Of the installed releases the chosen one is managed if any of them is, and no release of its kind, managed or
  -- not, has a higher version. There is a choice whenever a release is installed.
  pub get_installed_platform_release-IsNoBetter :
      (r : Release B) (releases : List (Release B))
      → (best : Release B) × (get_installed_platform_release (r ∷ releases) ≡ some best)
        × Elem best (r ∷ releases)
        × ((other : Release B) → Elem other (r ∷ releases) → IsNoBetter other best)
  unfolding get_installed_platform_release
  get_installed_platform_release-IsNoBetter r releases =
      (best_of r releases, refl, Elem-best_of r releases, IsNoBetter-best_of r releases)
