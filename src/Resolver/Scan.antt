-- ===== src/Resolver/Scan.antt =====
-- What the resolver knows after its scans: each scanned library, under each of its headers.
use arduino_cli_android.Prelude.{
  ℕ, Bool, true, false, List, [], ◌∷◌, ◌++◌, Option, none, some, ◌≡◌, refl, ◌==◌, nat_eq, list_eq,
  list_beq_iff, if◌then◌else◌, ◌⊎◌, ◌↔◌, inl, inr, Elem, Bool-cases, lookup, assign, lookup-assign,
  Elem-append, Elem-append-left, Elem-append-right, false≢true, sym, ◌∙◌, subst,
}
use arduino_cli_android.Strings.{Text}
use arduino_cli_android.Libraries.{Library}
use arduino_cli_android.Libraries.Collection.{add, location_eq}
use arduino_cli_android.Resolver.{
  Headers, alternatives_for, add_headers, scan_library, add_if_read, scan_where, is_ide_builtin,
  is_user_or_unmanaged, is_of_platform, same_pointer, new_cpp_resolver, scan_ide_builtin_libraries,
  scan_user_and_unmanaged_libraries, scan_platform_libraries,
}
use arduino_cli_android.Resolver.Places.{IsScanned, IsTaken, by_place_iff, same_pointer_iff}

-- `lib` has the header in its source folder.
abbrev pub Offers : Library → Text → Type 0
Offers lib header = (hs : List Text) × (lib.source_headers ≡ some hs) × Elem header hs

pub alternatives-assign :
    (headers : Headers) (h j : Text) (l : List Library)
    → alternatives_for (assign h l headers) j ≡ (if h == j then l else alternatives_for headers j)
unfolding alternatives_for
alternatives-assign headers h j l =
    rw (lookup-assign h j l headers, alternatives_for)
      (elim (Bool-cases (h == j)) [ inl e ↦ rw e | inr e ↦ rw e ])

-- One header more: the library joins the others of that header.
Elem-add_one :
    (headers : Headers) (h j : Text) (lib lib' : Library)
    → Elem lib'
        (alternatives_for (assign h (add (alternatives_for headers h) (lib ∷ [])) headers) j)
      ↔ (Elem lib' (alternatives_for headers j) ⊎ ((lib' ≡ lib) × (j ≡ h)))
unfolding add
Elem-add_one headers h j lib lib' =
    rw (alternatives-assign headers h j (alternatives_for headers h ++ (lib ∷ [])))
      (elim (Bool-cases (h == j)) [
        | inl same ↦ let e = (list_beq_iff h j).0 same in rw same (forth_same e, back_same e)
        | inr other ↦ rw other (λ m. inl m, λ m. back_other other m)
      ])
  where
    forth_same :
        h ≡ j
        → Elem lib' (alternatives_for headers h ++ (lib ∷ []))
        → Elem lib' (alternatives_for headers j) ⊎ ((lib' ≡ lib) × (j ≡ h))
    forth_same e m = elim (Elem-append lib' (alternatives_for headers h) (lib ∷ []) m) [
      | inl old ↦ inl (rw (← e) old)
      | inr (inl new) ↦ inr (new, sym e)
      | inr (inr never) ↦ absurd never
    ]

    back_same :
        h ≡ j
        → Elem lib' (alternatives_for headers j) ⊎ ((lib' ≡ lib) × (j ≡ h))
        → Elem lib' (alternatives_for headers h ++ (lib ∷ []))
    back_same e (inl old) = Elem-append-left lib' (alternatives_for headers h) (lib ∷ []) (rw e old)
    back_same e (inr (new, _)) =
        Elem-append-right lib' (alternatives_for headers h) (lib ∷ []) (inl new)

    back_other :
        (h == j) ≡ false
        → Elem lib' (alternatives_for headers j) ⊎ ((lib' ≡ lib) × (j ≡ h))
        → Elem lib' (alternatives_for headers j)
    back_other other (inl m) = m
    back_other other (inr (_, e)) = absurd (false≢true (sym other ∙ (list_beq_iff h j).1 (sym e)))

Elem-add_headers :
    (headers : Headers) (lib : Library) (hs : List Text) (j : Text) (lib' : Library)
    → Elem lib' (alternatives_for (add_headers headers lib hs) j)
      ↔ (Elem lib' (alternatives_for headers j) ⊎ ((lib' ≡ lib) × Elem j hs))
unfolding add_headers
Elem-add_headers headers lib [] j lib' =
    (λ m. inl m, λ m. elim m [ inl a ↦ a | inr b ↦ absurd b.1 ])
Elem-add_headers headers lib (h ∷ hs) j lib' =
    let headers' = assign h (add (alternatives_for headers h) (lib ∷ [])) headers in
    let (forth, back) = Elem-add_headers headers' lib hs j lib' in
    let (forth₁, back₁) = Elem-add_one headers h j lib lib' in
    (
      λ m. elim (forth m) [
        | inl a ↦ elim (forth₁ a) [ inl b ↦ inl b | inr (e, q) ↦ inr (e, inl q) ]
        | inr (e, q) ↦ inr (e, inr q)
      ],
      λ m. elim m [
        | inl a ↦ back (inl (back₁ (inl a)))
        | inr (e, inl q) ↦ back (inl (back₁ (inr (e, q))))
        | inr (e, inr q) ↦ back (inr (e, q))
      ],
    )

same_list : {hs hs' : List Text} → some hs ≡ some hs' → hs ≡ hs'
same_list q = cc q

Elem-add_if_read :
    (headers : Headers) (lib : Library) (o : Option (List Text)) (j : Text) (lib' : Library)
    → Elem lib' (alternatives_for (add_if_read headers lib o) j) ↔ (
        Elem lib' (alternatives_for headers j)
        ⊎ ((lib' ≡ lib) × ((hs : List Text) × (o ≡ some hs) × Elem j hs)))
unfolding add_if_read
Elem-add_if_read headers lib none j lib' =
    (λ m. inl m, λ m. elim m [ inl a ↦ a | inr (e, (hs, q, r)) ↦ absurd (cc q) ])
Elem-add_if_read headers lib (some hs) j lib' =
    let (forth, back) = Elem-add_headers headers lib hs j lib' in
    (
      λ m. elim (forth m) [ inl a ↦ inl a | inr (e, q) ↦ inr (e, (hs, refl, q)) ],
      λ m. elim m [
        | inl a ↦ back (inl a)
        | inr (e, (hs', q, r)) ↦
            back (inr (e, subst (λ (l : List Text). Elem j l) (sym (same_list q)) r))
      ],
    )

Elem-scan_library :
    (headers : Headers) (lib : Library) (j : Text) (lib' : Library)
    → Elem lib' (alternatives_for (scan_library headers lib) j)
      ↔ (Elem lib' (alternatives_for headers j) ⊎ ((lib' ≡ lib) × Offers lib j))
unfolding scan_library
Elem-scan_library headers lib j lib' = Elem-add_if_read headers lib lib.source_headers j lib'

module _ (test : Library → Bool) where
  Elem-scan_one :
      (headers : Headers) (x : Library) (j : Text) (lib : Library)
      → Elem lib (alternatives_for (if test x then scan_library headers x else headers) j)
        ↔ (Elem lib (alternatives_for headers j) ⊎ ((lib ≡ x) × (test x ≡ true) × Offers x j))
  Elem-scan_one headers x j lib = elim (Bool-cases (test x)) [
    | inl takes ↦
        let (forth, back) = Elem-scan_library headers x j lib in
        rw takes (
          λ m. elim (forth m) [ inl a ↦ inl a | inr (e, o) ↦ inr (e, refl, o) ],
          λ m. elim m [ inl a ↦ back (inl a) | inr (e, t, o) ↦ back (inr (e, o)) ],
        )
    | inr skips ↦
        rw skips (λ m. inl m, λ m. elim m [ inl a ↦ a | inr (e, t, o) ↦ absurd (false≢true t) ])
  ]

  -- One pass over the libraries adds those that pass the test, under their headers.
  Elem-scan_where :
      (headers : Headers) (libs : List Library) (j : Text) (lib : Library)
      → Elem lib (alternatives_for (scan_where test headers libs) j) ↔ (
          Elem lib (alternatives_for headers j)
          ⊎ (Elem lib libs × (test lib ≡ true) × Offers lib j))
  unfolding scan_where
  Elem-scan_where headers [] j lib = (λ m. inl m, λ m. elim m [ inl a ↦ a | inr h ↦ absurd h.0 ])
  Elem-scan_where headers (x ∷ libs) j lib =
      let (forth, back) =
        Elem-scan_where (if test x then scan_library headers x else headers) libs j lib in
      let (forth₁, back₁) = Elem-scan_one headers x j lib in
      (
        λ m. elim (forth m) [
          | inl a ↦ elim (forth₁ a) [
            | inl b ↦ inl b
            | inr (e, t, o) ↦ inr (inl e, rw e t, subst (λ l. Offers l j) (sym e) o)
          ]
          | inr (a, t, o) ↦ inr (inr a, t, o)
        ],
        λ m. elim m [
          | inl a ↦ back (inl (back₁ (inl a)))
          | inr (inl e, t, o) ↦ back (inl (back₁ (inr (e, rw e at t, subst (λ l. Offers l j) e o))))
          | inr (inr a, t, o) ↦ back (inr (a, t, o))
        ],
      )

-- The headers hold exactly the libraries that satisfy `S`, under what they offer.
abbrev Holds : List Library → (Library → Type 0) → Headers → Type 0
Holds libs S headers =
    (j : Text) (lib : Library)
    → Elem lib (alternatives_for headers j) ↔ (Elem lib libs × S lib × Offers lib j)

Holds-scan_where :
    (libs : List Library) (S : Library → Type 0) (test : Library → Bool) (headers : Headers)
    → Holds libs S headers
    → Holds libs (λ lib. S lib ⊎ (test lib ≡ true)) (scan_where test headers libs)
Holds-scan_where libs S test headers h j lib =
    let (forth, back) = Elem-scan_where test headers libs j lib in
    let (forth₁, back₁) = h j lib in
    (
      λ m. elim (forth m) [
        | inl a ↦ let (b, s, o) = forth₁ a in (b, inl s, o)
        | inr (b, t, o) ↦ (b, inr t, o)
      ],
      λ (b, s, o). elim s [ inl s' ↦ back (inl (back₁ (b, s', o))) | inr t ↦ back (inr (b, t, o)) ],
    )

Holds-start :
    (libs : List Library) (test : Library → Bool)
    → Holds libs (λ lib. test lib ≡ true) (scan_where test [] libs)
unfolding alternatives_for lookup
Holds-start libs test j lib =
    let (forth, back) = Elem-scan_where test [] libs j lib in
    (λ m. elim (forth m) [ inl a ↦ absurd a | inr b ↦ b ], λ b. back (inr b))

Elem-IsTaken :
    (libs : List Library) (target actual : Option ℕ) (header : Text) (lib : Library)
    → Elem lib (alternatives_for (new_cpp_resolver libs target actual) header)
      ↔ (Elem lib libs × IsTaken target actual lib × Offers lib header)
unfolding new_cpp_resolver scan_ide_builtin_libraries scan_user_and_unmanaged_libraries
    scan_platform_libraries
Elem-IsTaken libs target actual header lib = elim (Bool-cases (same_pointer actual target)) [
  | inl same ↦
      let (forth, back) = three header lib in
      let e = (same_pointer_iff actual target).0 same in
      rw same
        (λ m. let (a, s, o) = forth m in (a, inl s, o), λ (a, s, o). back (a, drop_actual e s, o))
  | inr other ↦ rw other (Holds-scan_where libs _ (is_of_platform actual) _ three header lib)
]
  where
    three :
        Holds libs
          (λ l.
            ((is_ide_builtin l ≡ true) ⊎ (is_user_or_unmanaged l ≡ true))
            ⊎ (is_of_platform target l ≡ true))
          (scan_where
            (is_of_platform target)
            (scan_where is_user_or_unmanaged (scan_where is_ide_builtin [] libs) libs)
            libs)
    three =
        Holds-scan_where libs (λ l. (is_ide_builtin l ≡ true) ⊎ (is_user_or_unmanaged l ≡ true))
          (is_of_platform target)
          (scan_where is_user_or_unmanaged (scan_where is_ide_builtin [] libs) libs)
          (Holds-scan_where libs (λ l. is_ide_builtin l ≡ true) is_user_or_unmanaged
            (scan_where is_ide_builtin [] libs) (Holds-start libs is_ide_builtin))

    drop_actual :
        actual ≡ target
        → IsTaken target actual lib
        → ((is_ide_builtin lib ≡ true) ⊎ (is_user_or_unmanaged lib ≡ true))
          ⊎ (is_of_platform target lib ≡ true)
    drop_actual e (inl s) = s
    drop_actual e (inr t) = inr (subst (λ (p : Option ℕ). is_of_platform p lib ≡ true) e t)

-- The libraries known for a header are exactly those among the installed ones that provide it and
-- are built in, the user's, given on the command line, or bundled with one of the two platforms.
pub Elem-new_cpp_resolver :
    (libs : List Library) (target actual : Option ℕ) (header : Text) (lib : Library)
    → Elem lib (alternatives_for (new_cpp_resolver libs target actual) header)
      ↔ (Elem lib libs × IsScanned target actual lib × Offers lib header)
Elem-new_cpp_resolver libs target actual header lib =
    let (forth, back) = Elem-IsTaken libs target actual header lib in
    let (taken, scanned) = by_place_iff target actual lib in
    (λ m. let (a, s, o) = forth m in (a, taken s, o), λ (a, s, o). back (a, scanned s, o))
