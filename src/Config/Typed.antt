-- ===== src/Config/Typed.antt =====
-- A configuration with a schema holds, under each key of the schema, a value of the type of that key.
use arduino_cli_android.Prelude.{
  ℕ, All, Option, List, [], ◌∷◌, none, some, ◌==◌, nat_eq, list_eq, list_beq_iff, lookup, ◌≡◌, ◌≢◌,
  refl, sym, subst, ◌∙◌, inl, inr, false≢true, Bool-cases,
}
use arduino_cli_android.Strings.{Text, split}
use arduino_cli_android.Config.Convert.{
  Scalar, scalar_type, ElemType, any_type, each, SchemaType, Leaf, null, scalar, array, type_of,
  scalar_type_eq,
}
use arduino_cli_android.Config.{
  end, Tree, leaf, sub, Config, get, set, path, get_ok, put, delete_key,
}
use arduino_cli_android.Config.Access.{
  get_end, AreApart, get-set_same, get-set_apart, WasThere-remove,
}

-- What a slice of the type can hold: one of `any` everything, one of a scalar type the scalars of that type.
abbrev pub IsElement : ElemType → Option Scalar → Type 0
IsElement any_type x = Unit
IsElement (each t) none = ⊥
IsElement (each t) (some s) = scalar_type s ≡ t

abbrev pub HasElements : Leaf → Type 0
HasElements null = Unit
HasElements (scalar s) = Unit
HasElements (array e xs) = All (IsElement e) xs

-- A value of the type, and if it is a slice, with elements of its element type.
abbrev pub HasType : SchemaType → Tree → Type 0
HasType t tree = (l : Leaf) × (tree ≡ leaf l) × (type_of l ≡ some t) × HasElements l

-- Every value that is there under a key of the schema has the type of the key.
abbrev pub IsTyped : Config → Type 0
IsTyped c =
    (key : Text) (t : SchemaType) (tree : Tree)
    → lookup key c.schema ≡ some t
    → get_ok c key ≡ some tree
    → HasType t tree

-- No key of the schema leads to a place below another.
abbrev pub IsSeparated : List (Text × SchemaType) → Type 0
IsSeparated schema =
    (key j : Text) (t u : SchemaType)
    → lookup key schema ≡ some t
    → lookup j schema ≡ some u
    → key ≢ j
    → AreApart (path key) (path j)

pub split-cons : (c : ℕ) (s : Text) → (k : Text) × (ks : List Text) × (split c s ≡ k ∷ ks)
unfolding split
split-cons c [] = ([], [], refl)
split-cons c (x ∷ s) =
    let (k, ks, e) = split-cons c s in
    elim (Bool-cases (x == c)) [
      | inl h ↦ ([], split c s, rw h refl)
      | inr h ↦ (x ∷ k, ks, rw (h, e) refl)
    ]

same_tree : {t u : Tree} → some t ≡ some u → t ≡ u
same_tree h = cc h

same_type : {t u : SchemaType} → some t ≡ some u → t ≡ u
same_type h = cc h

module _ (c : Config) where
  pub get_ok-put_same : (key : Text) (v : Leaf) → get_ok (put c key v) key ≡ some (leaf v)
  unfolding get_ok
  get_ok-put_same key v =
      let (k, ks, e) = split-cons b'.' key in
      subst (λ ps. get ps (set ps v c.values) ≡ some (leaf v)) (sym e)
        (get-set_same k ks v c.values)

  pub get_ok-put_apart :
      (key j : Text) (v : Leaf) → AreApart (path key) (path j) → get_ok (put c key v) j ≡ get_ok c j
  unfolding get_ok
  get_ok-put_apart key j v h = get-set_apart (path key) (path j) v c.values h

  pub IsTyped-put :
      (key : Text) (t : SchemaType) (v : Leaf)
      → IsSeparated c.schema
      → IsTyped c
      → lookup key c.schema ≡ some t
      → type_of v ≡ some t
      → HasElements v
      → IsTyped (put c key v)
  IsTyped-put key t v apart typed k tv held j u tree ku g = elim (Bool-cases (key == j)) [
    | inl same ↦
        let is_j = (list_beq_iff key j).0 same in
        let of_key : lookup key c.schema ≡ some u =
          subst (λ i. lookup i c.schema ≡ some u) (sym is_j) ku in
        let read : get_ok (put c key v) key ≡ some tree =
          subst (λ i. get_ok (put c key v) i ≡ some tree) (sym is_j) g in
        (v, same_tree (sym read ∙ get_ok-put_same key v), tv ∙ (sym k ∙ of_key), held)
    | inr other ↦
        let ne : key ≢ j = λ e. absurd (false≢true (sym other ∙ (list_beq_iff key j).1 e)) in
        typed j u tree ku (sym (get_ok-put_apart key j v (apart key j t u k ku ne)) ∙ g)
  ]

  pub IsTyped-delete_key : (key : Text) → IsTyped c → IsTyped (delete_key c key)
  unfolding delete_key get_ok
  IsTyped-delete_key key typed j u tree ku g =
      elim (WasThere-remove (path key) (path j) c.values tree g) [
        | inl h ↦ typed j u tree ku h
        | inr (r, h) ↦ let (l, e, _, _) = typed j u (sub r) ku h in cc e
      ]

-- Nothing is there yet.
pub IsTyped-start :
    (schema : List (Text × SchemaType)) → IsTyped (record { values = end; schema = schema })
unfolding get_ok
IsTyped-start schema key t tree k g =
    let (j, js, e) = split-cons b'.' key in
    let nothing : none ≡ some tree =
      sym (subst (λ ps. get ps end ≡ none) (sym e) (get_end j js)) ∙ g in
    cc nothing
