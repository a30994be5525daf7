-- ===== src/Config/Merge.antt =====
-- `Merge` of configuration.go. It changes the target in place, so that an error leaves it with what was merged before.
use arduino_cli_android.Prelude.{
  Bool, true, false, List, [], ◌∷◌, Option, none, some, ◌==◌, nat_eq, list_eq, list_beq_iff,
  if◌then◌else◌, ◌≡◌, ◌≢◌, refl, sym, ap, subst, ◌∙◌, inl, inr, Bool-cases, false≢true,
}
use arduino_cli_android.Strings.{Text}
use arduino_cli_android.Config.Convert.{
  ElemType, any_type, each, SchemaType, one, slice, Leaf, type_of, scalar_type_eq, rank_iff,
}
use arduino_cli_android.Config.{
  Tree, leaf, sub, Entries, end, entry, find_entry, put_entry, get, below,
}
use arduino_cli_android.Config.Access.{
  find-put_same, find-put_other, get_same_entry, get_into, get_through, get-below,
}

pub data MergeError : Type 0 where
  not_a_map missing_key other_type : MergeError

-- The target with no error, or as an error leaves it.
pub data Merged : Type 0 where
  merged : Entries → Merged
  conflict : MergeError → Entries → Merged

unfoldable pub same_elem : ElemType → ElemType → Bool
same_elem any_type any_type = true
same_elem (each t) (each u) = t == u
same_elem _ _ = false

unfoldable pub same_schema_type : SchemaType → SchemaType → Bool
same_schema_type (one t) (one u) = t == u
same_schema_type (slice e) (slice e') = same_elem e e'
same_schema_type _ _ = false

unfoldable pub same_reflect_type : Option SchemaType → Option SchemaType → Bool
same_reflect_type none none = true
same_reflect_type (some t) (some u) = same_schema_type t u
same_reflect_type _ _ = false

-- The value `xv` in place of `v`, the rest of the source being merged after it.
unfoldable pub may_replace : Option Tree → Leaf → Option MergeError
may_replace none xv = some missing_key
may_replace (some (sub m)) xv = some other_type
may_replace (some (leaf v)) xv =
    if same_reflect_type (type_of v) (type_of xv) then none else some other_type

abbrev pub replaced : Entries → Text → Leaf → Option MergeError → Merged
replaced c xk xv none = merged (put_entry xk (leaf xv) c)
replaced c xk xv (some e) = conflict e c

-- The target is the map that the entry points to.
abbrev pub in_place : Entries → Text → Merged → Merged
in_place c xk (merged c') = merged (put_entry xk (sub c') c)
in_place c xk (conflict e c') = conflict e (put_entry xk (sub c') c)

-- A map of the source, which `merge_into` merges into another, by what the target has under the key.
abbrev pub merge_below : Entries → Text → (Entries → Merged) → Option Tree → Merged
merge_below c xk merge_into none = conflict not_a_map c
merge_below c xk merge_into (some (leaf l)) = conflict not_a_map c
merge_below c xk merge_into (some (sub c')) = in_place c xk (merge_into c')

-- The loop over the source, in one of the orders in which Go may walk it.
unfoldable mutual
  pub merge_entry : Entries → Text → Tree → Merged
  merge_entry c xk (sub x) = merge_below c xk (λ c'. merge c' x) (find_entry xk c)
  merge_entry c xk (leaf xv) = replaced c xk xv (may_replace (find_entry xk c) xv)

  pub merge : Entries → Entries → Merged
  merge c end = merged c
  merge c (entry xk xv x) = elim (merge_entry c xk xv) [
    | merged c' ↦ merge c' x
    | conflict e c' ↦ conflict e c'
  ]

abbrev pub target : Merged → Entries
target (merged c) = c
target (conflict e c) = c

-- What is under a key: nothing, a map, or a value of a type.
pub data Kind : Type 0 where
  absent a_map : Kind
  a_value : Option SchemaType → Kind

abbrev pub kind_of : Option Tree → Kind
kind_of none = absent
kind_of (some (sub m)) = a_map
kind_of (some (leaf l)) = a_value (type_of l)

-- The same kinds under all paths.
abbrev SameKinds : Entries → Entries → Type 0
SameKinds m m' = (ks : List Text) → kind_of (get ks m) ≡ kind_of (get ks m')

same_elem→eq : (e e' : ElemType) → same_elem e e' ≡ true → e ≡ e'
unfolding same_elem
same_elem→eq any_type any_type h = refl
same_elem→eq any_type (each u) h = cc
same_elem→eq (each t) any_type h = cc
same_elem→eq (each t) (each u) h = ap each ((rank_iff t u).0 h)

same_schema_type→eq : (t u : SchemaType) → same_schema_type t u ≡ true → t ≡ u
unfolding same_schema_type
same_schema_type→eq (one t) (one u) h = ap one ((rank_iff t u).0 h)
same_schema_type→eq (one t) (slice e) h = cc
same_schema_type→eq (slice e) (one u) h = cc
same_schema_type→eq (slice e) (slice e') h = ap slice (same_elem→eq e e' h)

same_reflect_type→eq : (a b : Option SchemaType) → same_reflect_type a b ≡ true → a ≡ b
unfolding same_reflect_type
same_reflect_type→eq none none h = refl
same_reflect_type→eq none (some u) h = cc
same_reflect_type→eq (some t) none h = cc
same_reflect_type→eq (some t) (some u) h = ap some (same_schema_type→eq t u h)

-- An entry replaced by one whose kinds are the same.
SameKinds-put :
    (k : Text) (t u : Tree) (m : Entries)
    → find_entry k m ≡ some u
    → ((ks : List Text) → kind_of (get (k ∷ ks) (put_entry k t m)) ≡ kind_of (get (k ∷ ks) m))
    → SameKinds (put_entry k t m) m
unfolding get
SameKinds-put k t u m e same [] = refl
SameKinds-put k t u m e same (j ∷ js) = elim (Bool-cases (k == j)) [
  | inl h ↦
      subst (λ i. kind_of (get (i ∷ js) (put_entry k t m)) ≡ kind_of (get (i ∷ js) m))
        ((list_beq_iff k j).0 h) (same js)
  | inr h ↦
      let ne : k ≢ j = λ q. absurd (false≢true (sym h ∙ (list_beq_iff k j).1 q)) in
      ap kind_of (get_same_entry j js (put_entry k t m) m (find-put_other k j t m ne))
]

SameKinds-put_leaf :
    (k : Text) (l l' : Leaf) (m : Entries)
    → find_entry k m ≡ some (leaf l')
    → type_of l ≡ type_of l'
    → SameKinds (put_entry k (leaf l) m) m
unfolding get below
SameKinds-put_leaf k l l' m e same = SameKinds-put k (leaf l) (leaf l') m e go
  where
    go :
        (ks : List Text)
        → kind_of (get (k ∷ ks) (put_entry k (leaf l) m)) ≡ kind_of (get (k ∷ ks) m)
    go [] = ap kind_of (find-put_same k (leaf l) m) ∙ (ap a_value same ∙ ap kind_of (sym e))
    go (j ∷ js) = ap kind_of (
        get-below k j js (put_entry k (leaf l) m)
        ∙ (ap (λ o. get (j ∷ js) (below o)) (find-put_same k (leaf l) m)
            ∙ (ap (λ o. get (j ∷ js) (below o)) (sym e) ∙ sym (get-below k j js m))))

SameKinds-put_sub :
    (k : Text) (m' m'' m : Entries)
    → find_entry k m ≡ some (sub m')
    → SameKinds m'' m'
    → SameKinds (put_entry k (sub m'') m) m
unfolding get
SameKinds-put_sub k m' m'' m e same = SameKinds-put k (sub m'') (sub m') m e go
  where
    go :
        (ks : List Text)
        → kind_of (get (k ∷ ks) (put_entry k (sub m'') m)) ≡ kind_of (get (k ∷ ks) m)
    go [] = ap kind_of (find-put_same k (sub m'') m) ∙ ap kind_of (sym e)
    go (j ∷ js) =
        ap kind_of (get_into k j js m m'')
        ∙ (same (j ∷ js) ∙ ap kind_of (sym (get_through k j js m m' e)))

may_replace-none :
    (o : Option Tree) (xv : Leaf)
    → may_replace o xv ≡ none
    → (v : Leaf) × (o ≡ some (leaf v)) × (type_of xv ≡ type_of v)
unfolding may_replace
may_replace-none none xv h = cc h
may_replace-none (some (sub m)) xv h = cc h
may_replace-none (some (leaf v)) xv h =
    elim (Bool-cases (same_reflect_type (type_of v) (type_of xv))) [
      | inl e ↦ (v, refl, sym (same_reflect_type→eq (type_of v) (type_of xv) e))
      | inr e ↦ let h' = rw e at h in cc h'
    ]

SameKinds-replaced :
    (c : Entries) (xk : Text) (xv : Leaf) (o : Option MergeError)
    → may_replace (find_entry xk c) xv ≡ o
    → SameKinds (target (replaced c xk xv o)) c
SameKinds-replaced c xk xv none e =
    let (v, q, t) = may_replace-none (find_entry xk c) xv e in SameKinds-put_leaf xk xv v c q t
SameKinds-replaced c xk xv (some err) e = λ ks. refl

SameKinds-in_place :
    (c c' : Entries) (xk : Text) (r : Merged)
    → find_entry xk c ≡ some (sub c')
    → SameKinds (target r) c'
    → SameKinds (target (in_place c xk r)) c
SameKinds-in_place c c' xk (merged c'') e h = SameKinds-put_sub xk c' c'' c e h
SameKinds-in_place c c' xk (conflict err c'') e h = SameKinds-put_sub xk c' c'' c e h

SameKinds-rest :
    (c x : Entries) (r : Merged)
    → ((c' : Entries) → SameKinds (target (merge c' x)) c')
    → SameKinds (target r) c
    → SameKinds (target (elim r [ merged c' ↦ merge c' x | conflict e c' ↦ conflict e c' ])) c
SameKinds-rest c x (merged c') rest h = λ ks. rest c' ks ∙ h ks
SameKinds-rest c x (conflict e c') rest h = h

SameKinds-merge_below :
    (c : Entries) (xk : Text) (x : Entries)
    → ((c' : Entries) → SameKinds (target (merge c' x)) c')
    → (o : Option Tree) → find_entry xk c ≡ o
    → SameKinds (target (merge_below c xk (λ c'. merge c' x) o)) c
SameKinds-merge_below c xk x rest none e = λ ks. refl
SameKinds-merge_below c xk x rest (some (leaf l)) e = λ ks. refl
SameKinds-merge_below c xk x rest (some (sub c')) e =
    SameKinds-in_place c c' xk (merge c' x) e (rest c')

mutual
  unfolding merge

  SameKinds-merge_entry :
      (c : Entries) (xk : Text) (xv : Tree) → SameKinds (target (merge_entry c xk xv)) c
  SameKinds-merge_entry c xk (leaf xv) =
      SameKinds-replaced c xk xv (may_replace (find_entry xk c) xv) refl
  SameKinds-merge_entry c xk (sub x) =
      SameKinds-merge_below c xk x (λ c'. SameKinds-merge c' x) (find_entry xk c) refl

  SameKinds-merge : (c x : Entries) → SameKinds (target (merge c x)) c
  SameKinds-merge c end = λ ks. refl
  SameKinds-merge c (entry xk xv x) =
      SameKinds-rest c x (merge_entry c xk xv) (λ c'. SameKinds-merge c' x)
        (SameKinds-merge_entry c xk xv)

-- A merge neither adds nor drops a key, and keeps the type of each value and what is a map, under all paths, also
-- where it stops with an error half-way.
pub kind-merge :
    (c x : Entries) (ks : List Text) → kind_of (get ks (target (merge c x))) ≡ kind_of (get ks c)
kind-merge c x ks = SameKinds-merge c x ks
