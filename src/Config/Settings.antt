-- ===== src/Config/Settings.antt =====
-- Every setting keeps the types of a configuration, and none of them panics.
use arduino_cli_android.Prelude.{
  ℕ, All, true, List, [], ◌∷◌, Option, none, some, ◌==◌, nat_eq, list_eq, lookup, ◌≡◌, refl, sym,
  ap, ◌∙◌, inl, inr, arith, Bool-cases, Option-cases,
}
use arduino_cli_android.Strings.{Text, is_empty, ℤ}
use arduino_cli_android.Config.Convert.{
  Scalar, ScalarType, ElemType, any_type, each, SchemaType, one, slice, Leaf, null, scalar, array,
  type_of, scalar_type, scalar_type_eq, rank_iff, Converted, converted, invalid, nil_panic,
  convert_number, convert_scalar, convert_all, convert_array, of_scalar, of_array, try_conversion,
  Elements, elements, bad_element, nil_element,
}
use arduino_cli_android.Config.{Config, Result, ok, failed, panicked, put, set_converted, set_key}
use arduino_cli_android.Config.Typed.{IsElement, HasElements, IsTyped, IsSeparated, IsTyped-put}

abbrev pub IsGiven : Option Scalar → Type 0
IsGiven none = ⊥
IsGiven (some s) = Unit

-- A value other than nil: a scalar, a slice of `any` without nil elements, or a slice of scalars of one type.
abbrev pub IsProperLeaf : Leaf → Type 0
IsProperLeaf null = ⊥
IsProperLeaf (scalar s) = Unit
IsProperLeaf (array any_type xs) = All IsGiven xs
IsProperLeaf (array (each t) xs) = All (IsElement (each t)) xs

any_elements : (xs : List (Option Scalar)) → All (IsElement any_type) xs
any_elements [] = tt
any_elements (x ∷ xs) = (tt, any_elements xs)

same_scalar : {s s' : Scalar} → some s ≡ some s' → s ≡ s'
same_scalar h = cc h

nothing_in_empty :
    {A : Type 0} (schema : List (Text × SchemaType)) (j : Text) (u : SchemaType)
    → is_empty schema ≡ true
    → lookup j schema ≡ some u
    → A
unfolding lookup
nothing_in_empty [] j u h k = cc k
nothing_in_empty (x ∷ schema) j u h k = cc h

module _ (float_uint : ℕ → ℕ) (float_int : ℕ → ℤ) where
  type-convert_number :
      (s s' : Scalar) (t : ScalarType)
      → convert_number float_uint float_int s t ≡ some s'
      → scalar_type s' ≡ t
  unfolding convert_number
  type-convert_number s s' t h = ground (arith, h)

  type-convert_scalar :
      (s s' : Scalar) (t : ScalarType)
      → convert_scalar float_uint float_int s t ≡ some s'
      → scalar_type s' ≡ t
  unfolding convert_scalar
  type-convert_scalar s s' t h = elim (Bool-cases (scalar_type s == t)) [
    | inl e ↦ ap scalar_type (sym (same_scalar (rw e at h))) ∙ (rank_iff (scalar_type s) t).0 e
    | inr e ↦ type-convert_number s s' t (rw e at h)
  ]

  -- The conversion gives a value of the type, and panics only on nil.
  abbrev ConvertedOk : SchemaType → Converted → Type 0
  ConvertedOk t (converted v) = (type_of v ≡ some t) × HasElements v
  ConvertedOk t invalid = Unit
  ConvertedOk t nil_panic = ⊥

  ConvertedOk-of_scalar :
      (s : Scalar) (t : ScalarType)
      → ConvertedOk
          (one t)
          (of_scalar float_uint float_int (convert_scalar float_uint float_int s t))
  ConvertedOk-of_scalar s t = elim (Option-cases (convert_scalar float_uint float_int s t)) [
    | inl e ↦ rw e tt
    | inr (s', e) ↦ rw e (ap (λ u. some (one u)) (type-convert_scalar s s' t e), tt)
  ]

  abbrev ElementsOk : ScalarType → Elements → Type 0
  ElementsOk t (elements xs) = All (IsElement (each t)) xs
  ElementsOk t bad_element = Unit
  ElementsOk t nil_element = ⊥

  ElementsOk-cons :
      (s : Scalar) (t : ScalarType) (r : Elements)
      → scalar_type s ≡ t
      → ElementsOk t r
      → ElementsOk t (elim r [
        | elements xs ↦ elements (some s ∷ xs)
        | bad_element ↦ bad_element
        | nil_element ↦ nil_element
      ])
  ElementsOk-cons s t (elements xs) e h = (e, h)
  ElementsOk-cons s t bad_element e h = tt
  ElementsOk-cons s t nil_element e h = absurd h

  ElementsOk-convert_all :
      (xs : List (Option Scalar)) (t : ScalarType)
      → All IsGiven xs
      → ElementsOk t (convert_all float_uint float_int xs t)
  unfolding convert_all
  ElementsOk-convert_all [] t h = tt
  ElementsOk-convert_all (none ∷ xs) t h = absurd h.0
  ElementsOk-convert_all (some s ∷ xs) t h =
      elim (Option-cases (convert_scalar float_uint float_int s t)) [
        | inl e ↦ rw (e, convert_all) tt
        | inr (s', e) ↦
            rw (e, convert_all)
              (ElementsOk-cons s' t (convert_all float_uint float_int xs t)
                (type-convert_scalar s s' t e) (ElementsOk-convert_all xs t h.1))
      ]

  ConvertedOk-of_array :
      (t : ScalarType) (r : Elements)
      → ElementsOk t r
      → ConvertedOk (slice (each t)) (of_array float_uint float_int (each t) r)
  ConvertedOk-of_array t (elements xs) h = (refl, h)
  ConvertedOk-of_array t bad_element h = tt
  ConvertedOk-of_array t nil_element h = absurd h

  ConvertedOk-convert_array :
      (e : ElemType) (xs : List (Option Scalar)) (e' : ElemType)
      → IsProperLeaf (array e xs)
      → ConvertedOk (slice e') (convert_array float_uint float_int e xs e')
  unfolding convert_array
  ConvertedOk-convert_array any_type xs any_type h = (refl, any_elements xs)
  ConvertedOk-convert_array any_type xs (each t) h =
      ConvertedOk-of_array t (convert_all float_uint float_int xs t) (ElementsOk-convert_all xs t h)
  ConvertedOk-convert_array (each t) xs any_type h = tt
  ConvertedOk-convert_array (each t) xs (each u) h = elim (Bool-cases (t == u)) [
    | inl e ↦ rw e (ap (λ v. some (slice (each v))) ((rank_iff t u).0 e), h)
    | inr e ↦ rw e tt
  ]

  ConvertedOk-try_conversion :
      (v : Leaf) (t : SchemaType)
      → IsProperLeaf v
      → ConvertedOk t (try_conversion float_uint float_int v t)
  unfolding try_conversion
  ConvertedOk-try_conversion null t h = absurd h
  ConvertedOk-try_conversion (scalar s) (one t) h = ConvertedOk-of_scalar s t
  ConvertedOk-try_conversion (scalar s) (slice e) h = tt
  ConvertedOk-try_conversion (array e xs) (one t) h = tt
  ConvertedOk-try_conversion (array e xs) (slice e') h = ConvertedOk-convert_array e xs e' h

  -- A call keeps the schema and the types, and does not panic.
  abbrev pub ResultOk : List (Text × SchemaType) → Result → Type 0
  ResultOk schema (ok c) = (c.schema ≡ schema) × IsTyped c
  ResultOk schema (failed e) = Unit
  ResultOk schema panicked = ⊥

  pub IsTyped-no_schema : (c : Config) → is_empty c.schema ≡ true → IsTyped c
  IsTyped-no_schema c h j u tree k g = nothing_in_empty c.schema j u h k

  ResultOk-set_converted :
      (c : Config) (key : Text) (t : SchemaType) (v : Converted)
      → IsSeparated c.schema
      → IsTyped c
      → lookup key c.schema ≡ some t
      → ConvertedOk t v
      → ResultOk c.schema (set_converted float_uint float_int c key v)
  unfolding set_converted
  ResultOk-set_converted c key t (converted v) apart typed k h =
      (refl, IsTyped-put c key t v apart typed k h.0 h.1)
  ResultOk-set_converted c key t invalid apart typed k h = tt
  ResultOk-set_converted c key t nil_panic apart typed k h = absurd h

  pub ResultOk-set_key :
      (c : Config) (key : Text) (v : Leaf)
      → IsSeparated c.schema
      → IsTyped c
      → IsProperLeaf v
      → ResultOk c.schema (set_key float_uint float_int c key v)
  unfolding set_key
  ResultOk-set_key c key v apart typed h = elim (Bool-cases (is_empty c.schema)) [
    | inl e ↦ rw e (refl, IsTyped-no_schema (put c key v) e)
    | inr e ↦ elim (Option-cases (lookup key c.schema)) [
      | inl k ↦ rw (e, k, set_key) tt
      | inr (t, k) ↦
          rw (e, k, set_key)
            (ResultOk-set_converted c key t (try_conversion float_uint float_int v t) apart typed k
              (ConvertedOk-try_conversion v t h))
    ]
  ]
