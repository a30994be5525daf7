-- ===== src/Resolver/Resolution.antt =====
-- What `ResolveFor` answers: one of the libraries with the highest priority.
use arduino_cli_android.Prelude.{
  ℕ, ◌+◌, ◌≤◌, true, false, ◌||◌, List, [], ◌∷◌, ◌++◌, Option, none, some, ◌≡◌, ◌≢◌, refl, ◌==◌,
  nat_eq, nat_beq_iff, list_eq, ltb, if◌then◌else◌, inl, inr, arith, Elem, Elem-append,
  Elem-append-left, Elem-append-right, append-nil, append_assoc, sym, ◌∙◌, Bool-cases, Option-cases,
  All, map, ◌↔◌, false≢true,
}
use arduino_cli_android.Strings.{Text, is_empty}
use arduino_cli_android.Libraries.{Library}
use arduino_cli_android.Libraries.Location.{LibraryLocation, profile}
use arduino_cli_android.Resolver.{
  Headers, alternatives_for, compute_priority, location_bonus, architecture_bonus, header_bonus,
  best_libraries, find_named, find_library_with_name_best_distance, first, pick, resolve_for,
  simplify, new_cpp_resolver,
}
use arduino_cli_android.Resolver.Scan.{Elem-new_cpp_resolver}
use arduino_cli_android.Resolver.Places.{scanned-not_profile}

location_bonus-some : (l : LibraryLocation) → l ≢ profile → (b : ℕ) × (location_bonus l ≡ some b)
unfolding location_bonus
location_bonus-some LibraryLocation.profile h = absurd (h refl)
location_bonus-some LibraryLocation.ide_builtin h = (0, refl)
location_bonus-some LibraryLocation.referenced_platform_builtin h = (1, refl)
location_bonus-some LibraryLocation.platform_builtin h = (2, refl)
location_bonus-some LibraryLocation.user h = (3, refl)
location_bonus-some LibraryLocation.unmanaged h = (10000, refl)

is_empty-snoc : (libs : List Library) (lib : Library) → is_empty (libs ++ (lib ∷ [])) ≡ false
is_empty-snoc [] lib = refl
is_empty-snoc (x ∷ libs) lib = refl

Elem-not_empty : (lib : Library) (libs : List Library) → Elem lib libs → is_empty libs ≡ false
Elem-not_empty lib [] m = absurd m
Elem-not_empty lib (x ∷ libs) m = refl

pub All-of_Elem :
    (libs : List Library)
    → ((lib : Library) → Elem lib libs → lib.location ≢ profile)
    → All (λ lib. lib.location ≢ profile) libs
All-of_Elem [] h = tt
All-of_Elem (x ∷ libs) h = (h x (inl refl), All-of_Elem libs (λ lib m. h lib (inr m)))

module _ (header arch : Text) where
  -- The library has the priority `p`.
  abbrev pub HasPriority : ℕ → Library → Type 0
  HasPriority p lib = compute_priority lib header arch ≡ some p

  -- The library's priority is at most `p`.
  abbrev pub AtMost : ℕ → Library → Type 0
  AtMost p lib = (q : ℕ) × HasPriority q lib × (q ≤ p)

  -- What the loop knows of the libraries `seen` so far.
  abbrev pub IsBest : List Library → List Library → ℕ → Type 0
  IsBest seen found p =
      ((lib : Library) → Elem lib found → Elem lib seen × HasPriority p lib)
      × ((lib : Library) → Elem lib seen → AtMost p lib)
      × (is_empty found ≡ is_empty seen)

  priority-some : (lib : Library) → lib.location ≢ profile → (p : ℕ) × HasPriority p lib
  unfolding compute_priority architecture_bonus
  priority-some lib h =
      let (b, e) = location_bonus-some lib.location h in
      (architecture_bonus lib arch + header_bonus lib header + b, rw (e, compute_priority) refl)

  module _ (seen found : List Library) (p q : ℕ) (x : Library) (h : IsBest seen found p)
      (hq : HasPriority q x) where
    new_bound :
        (r : ℕ)
        → q ≤ r
        → (is_empty found ≡ false → p ≤ r)
        → (lib : Library) → Elem lib (seen ++ (x ∷ []))
        → AtMost r lib
    new_bound r q_le p_le lib m = elim (Elem-append lib seen (x ∷ []) m) [
      | inl old ↦
          let (k, e, le) = h.1 lib old in
          (k, e, omega (arith, le, p_le (h.2 ∙ Elem-not_empty lib seen old)))
      | inr (inl new) ↦ (q, rw new hq, q_le)
      | inr (inr never) ↦ absurd never
    ]

    -- A round: a better library stands alone, an equal one joins, another is left out.
    after_better : (is_empty found || ltb p q) ≡ true → IsBest (seen ++ (x ∷ [])) (x ∷ []) q
    after_better b = (
      λ lib m. elim m [
        | inl e ↦ (Elem-append-right lib seen (x ∷ []) (inl e), rw e hq)
        | inr never ↦ absurd never
      ],
      new_bound q (omega arith) (λ e. ground (arith, b, e)),
      sym (is_empty-snoc seen x),
    )

    after_equal : is_empty found ≡ false → p ≡ q → IsBest (seen ++ (x ∷ [])) (found ++ (x ∷ [])) p
    after_equal n e = (
      λ lib m. elim (Elem-append lib found (x ∷ []) m) [
        | inl old ↦ (Elem-append-left lib seen (x ∷ []) (h.0 lib old).0, (h.0 lib old).1)
        | inr (inl new) ↦ (Elem-append-right lib seen (x ∷ []) (inl new), rw (new, e) hq)
        | inr (inr never) ↦ absurd never
      ],
      new_bound p (omega (arith, e)) (λ f. omega arith),
      is_empty-snoc found x ∙ sym (is_empty-snoc seen x),
    )

    after_other : is_empty found ≡ false → q ≤ p → IsBest (seen ++ (x ∷ [])) found p
    after_other n le = (
      λ lib m. (Elem-append-left lib seen (x ∷ []) (h.0 lib m).0, (h.0 lib m).1),
      new_bound p le (λ f. omega arith),
      n ∙ sym (is_empty-snoc seen x),
    )

    after_round :
        IsBest
          (seen ++ (x ∷ []))
          (if is_empty found || ltb p q
            then x ∷ []
            else if p == q
            then found ++ (x ∷ [])
            else found)
          (if is_empty found || ltb p q then q else p)
    after_round = elim (Bool-cases (is_empty found || ltb p q)) [
      | inl better ↦ rw better (after_better better)
      | inr not_better ↦ elim (Bool-cases (p == q)) [
        | inl same ↦
            rw (not_better, same)
              (after_equal (ground (arith, not_better)) ((nat_beq_iff p q).0 same))
        | inr other ↦
            rw (not_better, other)
              (after_other (ground (arith, not_better)) (ground (arith, not_better)))
      ]
    ]

  -- The loop never panics, and ends with the best of all libraries.
  IsBest-loop :
      (seen found : List Library) (p : ℕ) (libs : List Library)
      → All (λ lib. lib.location ≢ profile) libs
      → IsBest seen found p
      → (found' : List Library) × (p' : ℕ) × (best_libraries header arch found p libs ≡ some found')
        × IsBest (seen ++ libs) found' p'
  unfolding best_libraries
  IsBest-loop seen found p [] ok h = (found, p, refl, rw (append-nil seen) h)
  IsBest-loop seen found p (x ∷ libs) ok h =
      let (q, hq) = priority-some x ok.0 in
      let (found', p', e, best) =
        IsBest-loop (seen ++ (x ∷ []))
          (if is_empty found || ltb p q
            then x ∷ []
            else if p == q
            then found ++ (x ∷ [])
            else found)
          (if is_empty found || ltb p q then q else p) libs ok.1
          (after_round seen found p q x h hq) in
      (found', p', rw (hq, best_libraries) e, rw (← append_assoc seen (x ∷ []) libs) best)

  -- The answer nil where no library has the header, or else a library of the highest priority.
  abbrev pub IsAnswer : List Library → Option Library → Type 0
  IsAnswer libs none = libs ≡ []
  IsAnswer libs (some lib) =
      Elem lib libs
      × ((p : ℕ) × HasPriority p lib × ((other : Library) → Elem other libs → AtMost p other))

module _ (closest : List Text → Text → Text) where
  Elem-find_named :
      (name : Text) (libs : List Library) (lib : Library)
      → find_named closest name libs ≡ some lib
      → Elem lib libs
  unfolding find_named
  Elem-find_named name [] lib h = cc
  Elem-find_named name (x ∷ libs) lib h = elim (Bool-cases (name == simplify x.name)) [
    | inl same ↦ inl (cc (rw (same, find_named) at h))
    | inr other ↦ inr (Elem-find_named name libs lib (rw (other, find_named) at h))
  ]

  Elem-best :
      (name : Text) (libs : List Library) (lib : Library)
      → find_library_with_name_best_distance closest name libs ≡ some lib
      → Elem lib libs
  unfolding find_library_with_name_best_distance
  Elem-best name libs lib h =
      Elem-find_named (closest (map (λ l. simplify l.name) libs) name) libs lib h

  module _ (sort_by_name : List Library → List Library)
      (sort_keeps : (libs : List Library) (lib : Library)
        → Elem lib (sort_by_name libs) ↔ Elem lib libs) where
    first-Elem :
        (sorted libs : List Library) (x : Library)
        → ((lib : Library) → Elem lib sorted ↔ Elem lib (x ∷ libs))
        → (lib : Library) × (first closest sort_by_name sorted ≡ some lib) × Elem lib (x ∷ libs)
    unfolding first
    first-Elem [] libs x keeps = absurd ((keeps x).1 (inl refl))
    first-Elem (y ∷ sorted) libs x keeps = (y, refl, (keeps y).0 (inl refl))

    pick-Elem :
        (header : Text) (x : Library) (libs : List Library)
        → (lib : Library) × (pick closest sort_by_name header (x ∷ libs) ≡ some lib)
          × Elem lib (x ∷ libs)
    unfolding pick
    pick-Elem header x [] = (x, refl, inl refl)
    pick-Elem header x (y ∷ libs) =
        elim (Option-cases (find_library_with_name_best_distance closest header (x ∷ y ∷ libs))) [
          | inl e ↦
              rw (e, pick)
                (first-Elem (sort_by_name (x ∷ y ∷ libs)) (y ∷ libs) x (sort_keeps (x ∷ y ∷ libs)))
          | inr (best, e) ↦ rw (e, pick) (best, refl, Elem-best header (x ∷ y ∷ libs) best e)
        ]

    answered :
        (header arch : Text) (libs found : List Library) (p : ℕ)
        → IsBest header arch libs found p
        → IsAnswer header arch libs (pick closest sort_by_name header found)
    unfolding pick
    answered header arch [] [] p h = refl
    answered header arch (y ∷ libs) [] p h = absurd (false≢true (sym h.2))
    answered header arch libs (x ∷ found) p h =
        let (lib, e, m) = pick-Elem header x found in rw e ((h.0 lib m).0, (p, (h.0 lib m).1, h.1))

    -- `ResolveFor` does not panic on libraries that are not of a profile; it gives nil exactly when no
    -- library has the header, and otherwise one of them of the highest priority. The sort keeps the
    -- libraries of its argument.
    pub resolve_for-IsAnswer :
        (headers : Headers) (header arch : Text)
        → All (λ lib. lib.location ≢ profile) (alternatives_for headers header)
        → (answer : Option Library) × (resolve_for closest sort_by_name headers header arch
            ≡ some answer)
          × IsAnswer header arch (alternatives_for headers header) answer
    unfolding resolve_for
    resolve_for-IsAnswer headers header arch ok =
        let (found, p, e, best) =
          IsBest-loop header arch [] [] 0 (alternatives_for headers header) ok
            (λ lib m. absurd m, λ lib m. absurd m, refl) in
        (
          pick closest sort_by_name header found,
          rw (e, resolve_for) refl,
          answered header arch (alternatives_for headers header) found p best,
        )

    -- After the scans of `NewCppResolver` the resolver answers for every header and architecture
    -- without a panic: nil exactly when it has no alternatives for the header, and otherwise one of
    -- the highest priority among them. The sort keeps the libraries of its argument.
    pub resolve-new_cpp_resolver :
        (libs : List Library) (target actual : Option ℕ) (header arch : Text)
        → (answer : Option Library) × (resolve_for closest sort_by_name
              (new_cpp_resolver libs target actual)
              header
              arch
            ≡ some answer)
          × IsAnswer header arch
              (alternatives_for (new_cpp_resolver libs target actual) header)
              answer
    resolve-new_cpp_resolver libs target actual header arch =
        resolve_for-IsAnswer (new_cpp_resolver libs target actual) header arch (
          All-of_Elem (alternatives_for (new_cpp_resolver libs target actual) header) (λ lib m.
            scanned-not_profile target actual lib
              ((Elem-new_cpp_resolver libs target actual header lib).0 m).1))
