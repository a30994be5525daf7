-- ===== src/Config/Reads.antt =====
-- The reads of types.go by the type of the schema, and reads after a write or a removal.
use arduino_cli_android.Prelude.{
  false, List, ◌∷◌, All, [], Option, none, some, ◌≡◌, ◌≢◌, sym, subst, inl, inr, arith, lookup,
  Option-cases, list_eq, nat_eq,
}
use arduino_cli_android.Strings.{Text, pos}
use arduino_cli_android.Config.Convert.{
  text_type, flag_type, uint_type, int_type, uint32_type, float_type, SchemaType, one, slice, Leaf,
  type_of, Scalar, text, flag, uint, int, uint32, float, null, scalar, array, any_type, each,
}
use arduino_cli_android.Config.{
  leaf, Config, get, remove, path, get_ok, put, delete_key, read_with, or_panic, as_text, as_flag,
  as_uint, as_int, as_uint32, get_string, get_bool, get_uint, get_int, get_uint32, texts_of,
  as_texts, get_string_slice,
}
use arduino_cli_android.Config.Access.{AreApart, get-remove_same, get-remove_apart}
use arduino_cli_android.Config.Typed.{
  IsElement, HasElements, IsTyped, split-cons, get_ok-put_same, get_ok-put_apart,
}

-- The read for the type does not panic. There are reads of strings, Booleans, numbers of the types uint, int and
-- uint32, and slices of strings.
abbrev pub ReadsWell : Config → Text → SchemaType → Type 0
ReadsWell c key (one text_type) = get_string c key ≢ none
ReadsWell c key (one flag_type) = get_bool c key ≢ none
ReadsWell c key (one uint_type) = get_uint c key ≢ none
ReadsWell c key (one int_type) = get_int c key ≢ none
ReadsWell c key (one uint32_type) = get_uint32 c key ≢ none
ReadsWell c key (slice (each text_type)) = get_string_slice c key ≢ none
ReadsWell c key _ = Unit

module _ {A : Type 0} (pick : Leaf → Option A) (zero_value : A) where
  -- A read finds nothing, or a value that it takes.
  read-some :
      (c : Config) (key : Text) (t : SchemaType)
      → IsTyped c
      → lookup key c.schema ≡ some t
      → ((l : Leaf) → type_of l ≡ some t → HasElements l → pick l ≢ none)
      → or_panic zero_value (read_with pick (get_ok c key)) ≢ none
  unfolding or_panic read_with
  read-some c key t typed k picks = elim (Option-cases (get_ok c key)) [
    | inl e ↦ rw (e, or_panic, read_with) (λ q. cc q)
    | inr (tree, e) ↦
        let (l, is_leaf, of_type, held) = typed key t tree k e in
        elim (Option-cases (pick l)) [
          | inl n ↦ absurd (picks l of_type held n)
          | inr (a, p) ↦ rw (e, is_leaf, p, or_panic, read_with) (λ q. cc q)
        ]
  ]

-- A slice of strings is read with all its elements.
texts_of-some :
    (xs : List (Option Scalar)) → All (IsElement (each text_type)) xs → texts_of xs ≢ none
unfolding texts_of
texts_of-some [] h = λ q. cc q
texts_of-some (none ∷ xs) h = absurd h.0
texts_of-some (some (text s) ∷ xs) h = elim (Option-cases (texts_of xs)) [
  | inl n ↦ absurd (texts_of-some xs h.1 n)
  | inr (ss, e) ↦ rw e (λ q. cc q)
]
texts_of-some (some (flag b) ∷ xs) h = cc h.0
texts_of-some (some (uint n) ∷ xs) h = cc h.0
texts_of-some (some (int n) ∷ xs) h = cc h.0
texts_of-some (some (uint32 n) ∷ xs) h = cc h.0
texts_of-some (some (float n) ∷ xs) h = cc h.0

texts-some :
    (l : Leaf) → type_of l ≡ some (slice (each text_type)) → HasElements l → as_texts l ≢ none
texts-some null h w = cc h
texts-some (scalar s) h w = cc h
texts-some (array any_type xs) h w = cc h
texts-some (array (each text_type) xs) h w = texts_of-some xs w
texts-some (array (each flag_type) xs) h w = cc h
texts-some (array (each uint_type) xs) h w = cc h
texts-some (array (each int_type) xs) h w = cc h
texts-some (array (each uint32_type) xs) h w = cc h
texts-some (array (each float_type) xs) h w = cc h

-- On a configuration that holds values of the types of its schema, slices with their elements included, the read
-- of a key of the type string, bool, uint, int, uint32 or slice of strings by its type does not panic.
pub ReadsWell-IsTyped :
    (c : Config) (key : Text) (t : SchemaType)
    → IsTyped c
    → lookup key c.schema ≡ some t
    → ReadsWell c key t
unfolding get_string get_bool get_uint get_int get_uint32 get_string_slice
ReadsWell-IsTyped c key (one text_type) typed k =
    read-some as_text [] c key (one text_type) typed k (λ l h w. ground (arith, h))
ReadsWell-IsTyped c key (one flag_type) typed k =
    read-some as_flag false c key (one flag_type) typed k (λ l h w. ground (arith, h))
ReadsWell-IsTyped c key (one uint_type) typed k =
    read-some as_uint 0 c key (one uint_type) typed k (λ l h w. ground (arith, h))
ReadsWell-IsTyped c key (one int_type) typed k =
    read-some as_int (pos 0) c key (one int_type) typed k (λ l h w. ground (arith, h))
ReadsWell-IsTyped c key (one uint32_type) typed k =
    read-some as_uint32 0 c key (one uint32_type) typed k (λ l h w. ground (arith, h))
ReadsWell-IsTyped c key (slice (each text_type)) typed k =
    read-some as_texts [] c key (slice (each text_type)) typed k texts-some
ReadsWell-IsTyped c key (one float_type) typed k = tt
ReadsWell-IsTyped c key (slice any_type) typed k = tt
ReadsWell-IsTyped c key (slice (each flag_type)) typed k = tt
ReadsWell-IsTyped c key (slice (each uint_type)) typed k = tt
ReadsWell-IsTyped c key (slice (each int_type)) typed k = tt
ReadsWell-IsTyped c key (slice (each uint32_type)) typed k = tt
ReadsWell-IsTyped c key (slice (each float_type)) typed k = tt

-- After a value is put under a key, the key reads as that value, and every key apart from it as before.
pub get_ok-put :
    (c : Config) (key j : Text) (v : Leaf)
    → AreApart (path key) (path j)
    → (get_ok (put c key v) key ≡ some (leaf v)) × (get_ok (put c key v) j ≡ get_ok c j)
get_ok-put c key j v h = (get_ok-put_same c key v, get_ok-put_apart c key j v h)

-- After a removal the key is not found, and every key apart from it reads as before.
pub get_ok-delete_key :
    (c : Config) (key j : Text)
    → AreApart (path key) (path j)
    → (get_ok (delete_key c key) key ≡ none) × (get_ok (delete_key c key) j ≡ get_ok c j)
unfolding get_ok delete_key
get_ok-delete_key c key j h =
    let (k, ks, e) = split-cons b'.' key in
    (
      subst (λ ps. get ps (remove ps c.values) ≡ none) (sym e) (get-remove_same k ks c.values),
      get-remove_apart (path key) (path j) c.values h,
    )
