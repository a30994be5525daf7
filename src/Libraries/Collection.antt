-- ===== src/Libraries/Collection.antt =====
-- internal/arduino/libraries/librarieslist.go: lists of libraries. Versions are compared by the
-- package `relaxed-semver`; equal numbers stand for versions that it calls equal.
use arduino_cli_android.Prelude.{
  ℕ, Bool, true, false, not, List, [], ◌∷◌, ◌++◌, Option, none, some, ◌==◌, nat_eq, nat_beq_iff,
  ◌≢◌, subst, list_eq, if◌then◌else◌, ◌≡◌, refl, ◌↔◌, inl, inr, arith, Elem, list_beq_iff, any, Eq,
  Bool-cases, All, ap, false≢true, sym, ◌∙◌,
}
use arduino_cli_android.Strings.{Text}
use arduino_cli_android.Libraries.Location.{
  LibraryLocation, ide_builtin, platform_builtin, referenced_platform_builtin, user, unmanaged,
  profile,
}
use arduino_cli_android.Libraries.{Library}

abbrev pub rank : LibraryLocation → ℕ
rank ide_builtin = 0
rank platform_builtin = 1
rank referenced_platform_builtin = 2
rank user = 3
rank unmanaged = 4
rank profile = 5

pub location_beq_iff : (a b : LibraryLocation) → ((rank a == rank b) ≡ true) ↔ (a ≡ b)
location_beq_iff a b = ground arith

instance abbrev pub location_eq : Eq LibraryLocation
location_eq = record { test = λ a b. rank a == rank b; test_iff = location_beq_iff }

unfoldable pub contains : List Library → Library → Bool
contains list lib = any (λ x. x.address == lib.address) list

unfoldable pub add : List Library → List Library → List Library
add list [] = list
add list (lib ∷ libs) = add (list ++ (lib ∷ [])) libs

unfoldable pub remove : List Library → Library → List Library
remove [] library_to_remove = []
remove (lib ∷ list) library_to_remove =
    if lib.address == library_to_remove.address then list else lib ∷ remove list library_to_remove

unfoldable pub find_by_name : List Library → Text → Option Library
find_by_name [] name = none
find_by_name (lib ∷ list) name = if lib.name == name then some lib else find_by_name list name

-- The two tests that pass a library over. `none` is the panic of `Equal` on a library that has no version.
unfoldable pub is_passed_over : Option ℕ → LibraryLocation → Library → Option Bool
is_passed_over version install_location lib =
    if not (lib.location == install_location) then some true else elim version [
      | none ↦ some false
      | some v ↦ elim lib.version [ none ↦ none | some w ↦ some (not (w == v)) ]
    ]

-- `none` is a panic.
unfoldable pub filter_by_version_and_install_location :
    List Library → Option ℕ → LibraryLocation → Option (List Library)
filter_by_version_and_install_location [] version install_location = some []
filter_by_version_and_install_location (lib ∷ list) version install_location =
    elim (is_passed_over version install_location lib) [
      | none ↦ none
      | some passed ↦ elim (filter_by_version_and_install_location list version install_location) [
        | none ↦ none
        | some rest ↦ some (if passed then rest else lib ∷ rest)
      ]
    ]

-- The location asked for, and the version if one is given.
abbrev pub IsWanted : Option ℕ → LibraryLocation → Library → Type 0
IsWanted version l lib = (lib.location ≡ l) × ((v : ℕ) → version ≡ some v → lib.version ≡ some v)

-- A version is asked for, and the library at the location has none.
abbrev pub HasNoVersion : Option ℕ → LibraryLocation → Library → Type 0
HasNoVersion version l lib = (version ≢ none) × (lib.location ≡ l) × (lib.version ≡ none)

-- What a test says: the library is wanted or not, and it panics only where there is no version to compare.
abbrev Tells : Option ℕ → LibraryLocation → Library → Option Bool → Type 0
Tells version l lib none = HasNoVersion version l lib
Tells version l lib (some true) = (¬ IsWanted version l lib) × ¬ HasNoVersion version l lib
Tells version l lib (some false) = IsWanted version l lib × ¬ HasNoVersion version l lib

Tells-is_passed_over :
    (version : Option ℕ) (l : LibraryLocation) (lib : Library)
    → Tells version l lib (is_passed_over version l lib)
unfolding is_passed_over
Tells-is_passed_over version l lib =
    let at_iff = location_beq_iff lib.location l in
    elim (Bool-cases (lib.location == l)) [
      | inr other ↦
          let elsewhere : lib.location ≢ l = λ e. absurd (false≢true (sym other ∙ at_iff.1 e)) in
          rw other (λ w. elsewhere w.0, λ n. elsewhere n.1)
      | inl at ↦ rw at (told version lib.version refl (at_iff.0 at))
    ]
  where
    some_none : {x : ℕ} → some x ≢ none
    some_none q = cc q

    same_version : {x y : ℕ} → some x ≡ some y → x ≡ y
    same_version q = cc q

    told :
        (version o : Option ℕ)
        → lib.version ≡ o
        → lib.location ≡ l
        → Tells version l lib (elim version [
          | none ↦ some false
          | some v ↦ elim o [ none ↦ none | some w ↦ some (not (w == v)) ]
        ])
    told none o e at = ((at, λ v q. cc q), λ n. n.0 refl)
    told (some v) none e at = (λ q. cc q, at, e)
    told (some v) (some w) e at = elim (Bool-cases (w == v)) [
      | inl same ↦ rw same (
        (at, λ u q. e ∙ (ap (λ (x : ℕ). some x) ((nat_beq_iff w v).0 same) ∙ q)),
        λ n. some_none (sym e ∙ n.2),
      )
      | inr other ↦ rw other (
        λ wanted.
            absurd (
              false≢true
                (sym other ∙ (nat_beq_iff w v).1 (same_version (sym e ∙ wanted.1 v refl)))),
        λ n. some_none (sym e ∙ n.2),
      )
    ]

-- The outcome of a filter, against the list that it was given.
abbrev pub Filters : List Library → Option ℕ → LibraryLocation → Option (List Library) → Type 0
Filters list version l none = (lib : Library) × Elem lib list × HasNoVersion version l lib
Filters list version l (some found) =
    ((lib : Library) → Elem lib found ↔ (Elem lib list × IsWanted version l lib))
    × ((lib : Library) → Elem lib list → ¬ HasNoVersion version l lib)

Filters-cons :
    (x : Library) (list : List Library) (version : Option ℕ) (l : LibraryLocation) (o : Option Bool)
    (r : Option (List Library))
    → Tells version l x o
    → Filters list version l r
    → Filters (x ∷ list) version l (elim o [
      | none ↦ none
      | some passed ↦ elim r [ none ↦ none | some rest ↦ some (if passed then rest else x ∷ rest) ]
    ])
Filters-cons x list version l none r told h = (x, inl refl, told)
Filters-cons x list version l (some passed) none told (lib, m, n) = (lib, inr m, n)
Filters-cons x list version l (some true) (some rest) (unwanted, fine) (found, all_fine) = (
  λ lib. (
    λ m. (inr ((found lib).0 m).0, ((found lib).0 m).1),
    λ (m, w). elim m [
      | inl e ↦ absurd (unwanted (subst (λ y. IsWanted version l y) e w))
      | inr k ↦ (found lib).1 (k, w)
    ],
  ),
  λ lib m n. elim m [
    | inl e ↦ fine (subst (λ y. HasNoVersion version l y) e n)
    | inr k ↦ all_fine lib k n
  ],
)
Filters-cons x list version l (some false) (some rest) (wanted, fine) (found, all_fine) = (
  λ lib. (
    λ m. elim m [
      | inl e ↦ (inl e, subst (λ y. IsWanted version l y) (sym e) wanted)
      | inr k ↦ (inr ((found lib).0 k).0, ((found lib).0 k).1)
    ],
    λ (m, w). elim m [ inl e ↦ inl e | inr k ↦ inr ((found lib).1 (k, w)) ],
  ),
  λ lib m n. elim m [
    | inl e ↦ fine (subst (λ y. HasNoVersion version l y) e n)
    | inr k ↦ all_fine lib k n
  ],
)

-- The filter panics exactly when a version is given and a library of the list that is at the location has
-- none; otherwise it keeps exactly the libraries that are at the location and, if a version is given, of
-- that version.
pub Filters-filter :
    (list : List Library) (version : Option ℕ) (l : LibraryLocation)
    → Filters list version l (filter_by_version_and_install_location list version l)
unfolding filter_by_version_and_install_location
Filters-filter [] version l = (λ lib. (λ h. absurd h, λ h. h.0), λ lib h n. absurd h)
Filters-filter (x ∷ list) version l =
    Filters-cons x list version l (is_passed_over version l x)
      (filter_by_version_and_install_location list version l) (Tells-is_passed_over version l x)
      (Filters-filter list version l)

-- The first library of the name, if there is one.
abbrev pub IsFirstNamed : Text → List Library → Option Library → Type 0
IsFirstNamed name list none = All (λ lib. (lib.name == name) ≡ false) list
IsFirstNamed name list (some found) =
    (before : List Library) × (after : List Library) × (list ≡ before ++ (found ∷ after))
    × (found.name ≡ name)
    × All (λ lib. (lib.name == name) ≡ false) before

-- `FindByName` gives the first library of the name, and nil exactly when none has it.
pub find_by_name-IsFirstNamed :
    (list : List Library) (name : Text) → IsFirstNamed name list (find_by_name list name)
unfolding find_by_name
find_by_name-IsFirstNamed [] name = tt
find_by_name-IsFirstNamed (lib ∷ list) name = elim (Bool-cases (lib.name == name)) [
  | inl same ↦ rw same ([], list, refl, (list_beq_iff lib.name name).0 same, tt)
  | inr other ↦
      rw other (extend (find_by_name list name) other (find_by_name-IsFirstNamed list name))
]
  where
    extend :
        (r : Option Library)
        → (lib.name == name) ≡ false
        → IsFirstNamed name list r
        → IsFirstNamed name (lib ∷ list) r
    extend none other h = (other, h)
    extend (some found) other (before, after, e, n, h) =
        (lib ∷ before, after, ap (λ (l : List Library). lib ∷ l) e, n, (other, h))
