-- ===== src/Tools/Flavors/Choice.antt =====
-- The flavour that is chosen has the highest priority among the compatible ones.
use arduino_cli_android.Prelude.{
  ℕ, ◌+◌, ◌≤◌, Bool, true, false, List, [], ◌∷◌, Option, none, some, ◌≡◌, refl, list_eq, nat_eq,
  ltb, ◌&&◌, arith, Elem, All, inl, inr, Bool-cases, ◌++◌, Elem-append-left, Elem-append-right,
  All-append, All-map, false≢true, sym, ◌∙◌, append_assoc, append-nil, All-elem,
}
use arduino_cli_android.Strings.{Text}
use arduino_cli_android.Tools.Flavors.{
  Flavor, is_compatible_with, is_exact_match_with, compatible_by_emulation, choose,
  get_flavour_compatible_with, host,
}

module _ (os_name os_arch : Text) where
  abbrev compatible : Flavor → Bool
  compatible f = (is_compatible_with f os_name os_arch).0

  abbrev priority : Flavor → ℕ
  priority f = (is_compatible_with f os_name os_arch).1

  -- `f` is compatible, and no compatible flavour of the list has a higher priority.
  pub record IsBest (flavors : List Flavor) (f : Flavor) : Type 0 where
    pub offered : Elem f flavors
    pub runs : compatible f ≡ true
    pub highest : All (λ g. compatible g ≡ true → priority g ≤ priority f) flavors

  -- What the loop has found so far, with the number that it keeps.
  abbrev Found : List Flavor → Option Flavor → ℕ → Type 0
  Found seen none n = (n ≡ 0) × All (λ g. compatible g ≡ false) seen
  Found seen (some f) n = (n ≡ priority f + 1) × IsBest seen f

  -- A flavour that is passed over, and one that is taken.
  keep :
      (seen : List Flavor) (f g : Flavor)
      → (compatible g ≡ true → priority g ≤ priority f)
      → IsBest seen f
      → IsBest (seen ++ (g ∷ [])) f
  keep seen f g h b = record {
    offered = Elem-append-left f seen (g ∷ []) b.offered;
    runs = b.runs;
    highest =
        All-append (λ x. compatible x ≡ true → priority x ≤ priority f) seen (g ∷ []) b.highest
          (h, tt);
  }

  take_over :
      (seen : List Flavor) (g : Flavor)
      → compatible g ≡ true
      → All (λ x. compatible x ≡ true → priority x ≤ priority g) seen
      → IsBest (seen ++ (g ∷ [])) g
  take_over seen g c h = record {
    offered = Elem-append-right g seen (g ∷ []) (inl refl);
    runs = c;
    highest =
        All-append (λ x. compatible x ≡ true → priority x ≤ priority g) seen (g ∷ []) h
          ((λ _. omega arith), tt);
  }

  -- One round of the loop.
  abbrev better : ℕ → Flavor → Bool
  better n g = compatible g && ltb n (priority g + 1)

  better_yes : (n : ℕ) (g : Flavor) → better n g ≡ true → (compatible g ≡ true) × (n ≤ priority g)
  better_yes n g h = (ground arith, ground arith)

  better_no : (n : ℕ) (g : Flavor) → better n g ≡ false → compatible g ≡ true → priority g + 1 ≤ n
  better_no n g h c = ground arith

  -- Everything seen is at most the priority kept.
  seen_below :
      (seen : List Flavor) (best : Option Flavor) (n : ℕ)
      → Found seen best n
      → All (λ x. compatible x ≡ true → priority x + 1 ≤ n) seen
  seen_below seen none n (z, h) =
      All-map (λ x. compatible x ≡ false) (λ x. compatible x ≡ true → priority x + 1 ≤ n)
        (λ x no yes. absurd (false≢true (sym no ∙ yes))) seen h
  seen_below seen (some f) n (e, b) =
      All-map (λ x. compatible x ≡ true → priority x ≤ priority f)
        (λ x. compatible x ≡ true → priority x + 1 ≤ n) (λ x le c. omega (arith, le c, e)) seen
        b.highest

  Found-taken :
      (seen : List Flavor) (best : Option Flavor) (n : ℕ) (g : Flavor)
      → Found seen best n
      → better n g ≡ true
      → Found (seen ++ (g ∷ [])) (some g) (priority g + 1)
  Found-taken seen best n g h t =
      let (c, le) = better_yes n g t in
      (
        refl,
        take_over seen g c (
            All-map (λ x. compatible x ≡ true → priority x + 1 ≤ n)
              (λ x. compatible x ≡ true → priority x ≤ priority g)
              (λ x below cx. omega (arith, below cx, le)) seen (seen_below seen best n h)),
      )

  Found-passed :
      (seen : List Flavor) (best : Option Flavor) (n : ℕ) (g : Flavor)
      → Found seen best n
      → better n g ≡ false
      → Found (seen ++ (g ∷ [])) best n
  Found-passed seen none n g (z, h) t = (
    z,
    All-append (λ x. compatible x ≡ false) seen (g ∷ []) h
        (
          (elim (Bool-cases (compatible g)) [
            | inl c ↦ absurd (omega (arith, better_no n g t c, z))
            | inr c ↦ c
          ]),
          tt,
        ),
  )
  Found-passed seen (some f) n g (e, b) t =
      (e, keep seen f g (λ c. omega (arith, better_no n g t c, e)) b)

  -- What the loop answers for the flavours that it has seen.
  abbrev pub Outcome : List Flavor → Option Flavor → Type 0
  Outcome flavors none = All (λ g. compatible g ≡ false) flavors
  Outcome flavors (some f) = IsBest flavors f

  Found→Outcome :
      (seen : List Flavor) (best : Option Flavor) (n : ℕ) → Found seen best n → Outcome seen best
  Found→Outcome seen none n h = h.1
  Found→Outcome seen (some f) n h = h.1

  choose-Outcome :
      (seen : List Flavor) (best : Option Flavor) (n : ℕ) (fs : List Flavor)
      → Found seen best n
      → Outcome (seen ++ fs) (choose os_name os_arch best n fs)
  unfolding choose
  choose-Outcome seen best n [] h = rw (append-nil seen) (Found→Outcome seen best n h)
  choose-Outcome seen best n (g ∷ fs) h =
      let shift = append_assoc seen (g ∷ []) fs in
      elim (Bool-cases (better n g)) [
        | inl t ↦ rw t (
            rw (← shift) (
              choose-Outcome (seen ++ (g ∷ [])) (some g) (priority g + 1) fs
                (Found-taken seen best n g h t)))
        | inr t ↦ rw t (
            rw (← shift)
              (choose-Outcome (seen ++ (g ∷ [])) best n fs (Found-passed seen best n g h t)))
      ]

  -- What a right answer is, for the flavours of a release.
  abbrev pub RightResource : List Flavor → Option ℕ → Type 0
  RightResource flavors none = All (λ g. compatible g ≡ false) flavors
  RightResource flavors (some r) = (f : Flavor) × (r ≡ f.resource) × IsBest flavors f

  -- The choice among the flavours of a release: the resource of a compatible flavour with the highest
  -- priority, or nothing, and then no flavour is compatible.
  pub get_flavour_compatible_with-RightResource :
      (flavors : List Flavor)
      → RightResource flavors (get_flavour_compatible_with flavors os_name os_arch)
  unfolding get_flavour_compatible_with
  get_flavour_compatible_with-RightResource flavors =
      resource_of (choose os_name os_arch none 0 flavors)
        (choose-Outcome [] none 0 flavors (refl, tt))
    where
      resource_of :
          (r : Option Flavor)
          → Outcome flavors r
          → RightResource flavors (elim r [ none ↦ none | some f ↦ some f.resource ])
      resource_of none h = h
      resource_of (some f) h = (f, refl, h)

  emulation_bound : (f : Flavor) (h : Text) → (compatible_by_emulation f h).1 ≤ 50
  unfolding compatible_by_emulation
  emulation_bound f h = ground arith

  exact_priority :
      (f : Flavor)
      → is_exact_match_with f os_name os_arch ≡ true
      → (compatible f ≡ true) × (priority f ≡ 1000)
  unfolding is_compatible_with
  exact_priority f h = (ground arith, ground arith)

  high→exact : (f : Flavor) → 51 ≤ priority f → is_exact_match_with f os_name os_arch ≡ true
  unfolding is_compatible_with
  high→exact f h = ground (arith, emulation_bound f (host os_name os_arch))

  -- If a flavour is made for the host, the resource of such a flavour is chosen, never one that
  -- runs by emulation.
  pub exact_match_wins :
      (flavors : List Flavor) (g : Flavor)
      → Elem g flavors
      → is_exact_match_with g os_name os_arch ≡ true
      → (f : Flavor) × Elem f flavors
        × (is_exact_match_with f os_name os_arch ≡ true)
        × (get_flavour_compatible_with flavors os_name os_arch ≡ some f.resource)
  exact_match_wins flavors g here exact =
      conclude (get_flavour_compatible_with flavors os_name os_arch) refl
        (get_flavour_compatible_with-RightResource flavors)
    where
      conclude :
          (r : Option ℕ)
          → get_flavour_compatible_with flavors os_name os_arch ≡ r
          → RightResource flavors r
          → (f : Flavor) × Elem f flavors
            × (is_exact_match_with f os_name os_arch ≡ true)
            × (get_flavour_compatible_with flavors os_name os_arch ≡ some f.resource)
      conclude none e h = absurd (
          false≢true (
            sym (All-elem (λ x. compatible x ≡ false) g flavors h here)
            ∙ (exact_priority g exact).0))
      conclude (some r) e (f, p, b) =
          let (c, q) = exact_priority g exact in
          let top =
            All-elem (λ x. compatible x ≡ true → priority x ≤ priority f) g flavors b.highest here
              c in
          (f, b.offered, high→exact f (omega (arith, q, top)), rw e (rw p))
