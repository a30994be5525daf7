-- ===== src/Packages/Resolution.antt =====
-- What an FQBN resolves to (`ResolveFQBN` of package_manager.go, up to the platforms of the build).
use arduino_cli_android.Prelude.{
  List, some, ◌≡◌, Elem, refl, subst, ◌⊎◌, inl, inr, Option-cases, lookup, list_eq, nat_eq,
}
use arduino_cli_android.Strings.{Text, codes, split}
use arduino_cli_android.Properties.{PropertiesMap}
use arduino_cli_android.Fqbn.{Fqbn}
use arduino_cli_android.Packages.Boards.{
  Board, Built, built, empty_option, invalid_option, invalid_value, get_build_properties,
}
use arduino_cli_android.Packages.Options.{
  first_of, IsKnown, IsSettled, IsChosen, board_property, get_build_properties-all,
}
use arduino_cli_android.Packages.Installed.{IsNoBetter, installed-IsNoBetter}
use arduino_cli_android.Packages.Reference.{Found-cases, IsReferenced, determine-IsReferenced}
use arduino_cli_android.Packages.{
  Release, Package, referred, found, Referenced, determine_referenced_platform_release,
  get_installed_platform_release, resolved, resolve_reference, resolve_board, resolve_in_package,
  resolve_fqbn,
}

Built-cases :
    (P : PropertiesMap) (x : Built P)
    → ((m : P.Map) × (x ≡ built m))
      ⊎ ((x ≡ empty_option) ⊎ ((x ≡ invalid_option) ⊎ (x ≡ invalid_value)))
Built-cases P (built m) = inl (m, refl)
Built-cases P empty_option = inr (inl refl)
Built-cases P invalid_option = inr (inr (inl refl))
Built-cases P invalid_value = inr (inr (inr refl))

same_resolved :
    {M B : Type 0} {p p' : Package B} {r r' : Release B} {b b' : B} {m m' : M} {f f' : Referenced B}
    → resolved p r b m f ≡ resolved p' r' b' m' f'
    → (p ≡ p') × (r ≡ r') × (b ≡ b') × (m ≡ m') × (f ≡ f')
same_resolved h = (cc h, cc h, cc h, cc h, cc h)

module _ (P : PropertiesMap) (merge : P.Map → P.Map → P.Map) (expanded : P.Map → Text → Text)
    (upper : Text → Text) (packages : List (Text × Package (Board P))) (fqbn : Fqbn P) where
  -- Every step of the way to the board, its properties and its platforms.
  record Steps (p : Package (Board P)) (r : Release (Board P)) (b : Board P) (m : P.Map)
      (f : Referenced (Board P)) : Type 0 where
    releases : List (Release (Board P))
    vendor : lookup fqbn.vendor packages ≡ some p
    architecture : lookup fqbn.architecture p.platforms ≡ some releases
    installed : get_installed_platform_release releases ≡ some r
    board : lookup fqbn.board_id r.boards ≡ some b
    properties : get_build_properties P merge upper b fqbn ≡ built m
    platforms :
        determine_referenced_platform_release packages fqbn.architecture
          (expanded m (codes "build.core"))
          (expanded m (codes "build.variant"))
          r
        ≡ found f

  module _ (p : Package (Board P)) (r : Release (Board P)) (b : Board P) (m : P.Map)
      (f : Referenced (Board P)) where
    all-board :
        (p' : Package (Board P)) (releases : List (Release (Board P))) (r' : Release (Board P))
        (b' : Board P)
        → lookup fqbn.vendor packages ≡ some p'
        → lookup fqbn.architecture p'.platforms ≡ some releases
        → get_installed_platform_release releases ≡ some r'
        → lookup fqbn.board_id r'.boards ≡ some b'
        → resolve_board P merge expanded upper packages fqbn p' r' b' ≡ resolved p r b m f
        → Steps p r b m f
    unfolding resolve_board resolve_reference
    all-board p' releases r' b' v a i k h =
        elim (Built-cases P (get_build_properties P merge upper b' fqbn)) [
          | inr (inl e) ↦ let h' = rw (e, resolve_board) at h in cc h'
          | inr (inr (inl e)) ↦ let h' = rw (e, resolve_board) at h in cc h'
          | inr (inr (inr e)) ↦ let h' = rw (e, resolve_board) at h in cc h'
          | inl (m', e) ↦
              elim (Found-cases (
                determine_referenced_platform_release packages fqbn.architecture
                  (expanded m' (codes "build.core")) (expanded m' (codes "build.variant")) r')) [
                    | inl (err, q) ↦
                        let h' = rw (e, q, resolve_board, resolve_reference) at h in cc h'
                    | inr (f', q) ↦
                        let (p_eq, r_eq, b_eq, m_eq, f_eq) =
                          same_resolved (rw (e, q, resolve_board, resolve_reference) at h) in
                        let there : Steps p' r' b' m' f' = record {
                          releases = releases;
                          vendor = v;
                          architecture = a;
                          installed = i;
                          board = k;
                          properties = e;
                          platforms = q;
                        } in
                        subst (λ x. Steps x r b m f) p_eq
                          (subst (λ x. Steps p' x b m f) r_eq
                            (subst (λ x. Steps p' r' x m f) b_eq
                              (subst (λ x. Steps p' r' b' x f) m_eq
                                (subst (λ x. Steps p' r' b' m' x) f_eq there))))
                  ]
        ]

    all-resolved :
        resolve_fqbn P merge expanded upper packages fqbn ≡ resolved p r b m f → Steps p r b m f
    unfolding resolve_fqbn resolve_in_package
    all-resolved h = elim (Option-cases (lookup fqbn.vendor packages)) [
      | inl v ↦ let h' = rw (v, resolve_fqbn) at h in cc h'
      | inr (p', v) ↦ elim (Option-cases (lookup fqbn.architecture p'.platforms)) [
        | inl a ↦ let h' = rw (v, a, resolve_fqbn, resolve_in_package) at h in cc h'
        | inr (releases, a) ↦ elim (Option-cases (get_installed_platform_release releases)) [
          | inl i ↦ let h' = rw (v, a, i, resolve_fqbn, resolve_in_package) at h in cc h'
          | inr (r', i) ↦ elim (Option-cases (lookup fqbn.board_id r'.boards)) [
            | inl k ↦ let h' = rw (v, a, i, k, resolve_fqbn, resolve_in_package) at h in cc h'
            | inr (b', k) ↦
                all-board p' releases r' b' v a i k
                  (rw (v, a, i, k, resolve_fqbn, resolve_in_package) at h)
          ]
        ]
      ]
    ]

  -- The package of the vendor, an installed release of the architecture that no other is better than, its board of
  -- the name, the properties that the options give it, and the platforms that they refer to.
  pub record IsResolution (p : Package (Board P)) (r : Release (Board P)) (b : Board P) (m : P.Map)
      (f : Referenced (Board P)) : Type 0 where
    pub releases : List (Release (Board P))
    pub vendor : lookup fqbn.vendor packages ≡ some p
    pub architecture : lookup fqbn.architecture p.platforms ≡ some releases
    pub installed : Elem r releases
    pub best : (other : Release (Board P)) → Elem other releases → IsNoBetter other r
    pub board : lookup fqbn.board_id r.boards ≡ some b
    pub known : (x : Text × Text) → IsChosen P b upper fqbn x → IsKnown P b x
    pub settled :
        (key : Text)
        → IsSettled P b (IsChosen P b upper fqbn) (board_property P b upper fqbn key) m key
    pub platforms :
        IsReferenced packages fqbn.architecture r
          (referred (split b':' (expanded m (codes "build.core"))))
          (referred (split b':' (expanded m (codes "build.variant"))))
          f

  -- Where an FQBN is resolved, the package is that of its vendor, the release is an installed one of its architecture
  -- that no other is better than, and the board is the one of its name in that release. Every option of the
  -- FQBN, and of the defaults of the board where the FQBN has none, is one of the board with a value that it
  -- knows. A build property has the value of such an option that gives it one; otherwise build.fqbn is the FQBN,
  -- build.arch the architecture in upper case, and the others are those of the board. The platforms are
  -- those that build.core and build.variant name. `Merge` of the package of properties lets the second
  -- map win.
  pub resolve_fqbn-IsResolution :
      (merge_law : (m n : P.Map) (k : Text)
        → P.get_ok (merge m n) k ≡ first_of (P.get_ok n k) (P.get_ok m k))
      (p : Package (Board P)) (r : Release (Board P)) (b : Board P) (m : P.Map)
      (f : Referenced (Board P))
      → resolve_fqbn P merge expanded upper packages fqbn ≡ resolved p r b m f
      → IsResolution p r b m f
  resolve_fqbn-IsResolution merge_law p r b m f h =
      let s = all-resolved p r b m f h in
      let (there, best) = installed-IsNoBetter s.releases r s.installed in
      let (known, settled) =
        get_build_properties-all P b merge merge_law upper fqbn m s.properties in
      record {
        releases = s.releases;
        vendor = s.vendor;
        architecture = s.architecture;
        installed = there;
        best = best;
        board = s.board;
        known = known;
        settled = settled;
        platforms =
            determine-IsReferenced packages fqbn.architecture r (expanded m (codes "build.core"))
              (expanded m (codes "build.variant")) f s.platforms;
      }
