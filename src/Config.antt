-- ===== src/Config.antt =====
-- internal/go-configmap: a configuration of nested maps with an optional schema of types (configuration.go and
-- types.go).
pub mod Convert
pub mod Access
pub mod Cli
pub mod Typed
pub mod Settings
pub mod Invariant
pub mod History
pub mod Merge
pub mod Reads
mod Tests
use arduino_cli_android.Prelude.{
  ℕ, Bool, true, false, List, [], ◌∷◌, ◌++◌, Option, none, some, ◌==◌, nat_eq, list_eq,
  if◌then◌else◌, lookup, assign,
}
use arduino_cli_android.Strings.{Text, codes, split, is_empty, ℤ, pos}
use arduino_cli_android.Config.Convert.{
  Scalar, text, flag, uint, int, uint32, float, Leaf, null, scalar, array, any_type, each,
  text_type, SchemaType, Converted, converted, invalid, nil_panic, try_conversion,
}

-- What a map holds under a key: a value, or a map of its own. The maps below have no schema, since
-- `set` makes them with `New`. A key has one entry in a Go map; here the first one counts.
mutual
  pub data Tree : Type 0 where
    leaf : Leaf → Tree
    sub : Entries → Tree

  pub data Entries : Type 0 where
    end : Entries
    entry : Text → Tree → Entries → Entries

pub record Config : Type 0 where
  pub values : Entries
  pub schema : List (Text × SchemaType)

unfoldable pub find_entry : Text → Entries → Option Tree
find_entry k end = none
find_entry k (entry j t m) = if j == k then some t else find_entry k m

unfoldable pub put_entry : Text → Tree → Entries → Entries
put_entry k t end = entry k t end
put_entry k t (entry j u m) = if j == k then entry k t m else entry j u (put_entry k t m)

unfoldable pub drop_entry : Text → Entries → Entries
drop_entry k end = end
drop_entry k (entry j t m) = let rest = drop_entry k m in if j == k then rest else entry j t rest

abbrev pub new : Config
new = record { values = end; schema = [] }

-- `get`; the answer is the value with whether it was found.
unfoldable pub get : List Text → Entries → Option Tree
get [] m = none
get (k ∷ []) m = find_entry k m
get (k ∷ k' ∷ ks) m = elim (find_entry k m) [
  | none ↦ none
  | some t ↦ elim t [ leaf l ↦ none | sub m' ↦ get (k' ∷ ks) m' ]
]

-- The map to go down to: a new one where there is none.
unfoldable pub below : Option Tree → Entries
below none = end
below (some (leaf l)) = end
below (some (sub m)) = m

unfoldable pub set : List Text → Leaf → Entries → Entries
set [] v m = m
set (k ∷ []) v m = put_entry k (leaf v) m
set (k ∷ k' ∷ ks) v m = put_entry k (sub (set (k' ∷ ks) v (below (find_entry k m)))) m

unfoldable pub remove : List Text → Entries → Entries
remove [] m = m
remove (k ∷ []) m = drop_entry k m
remove (k ∷ k' ∷ ks) m = elim (find_entry k m) [
  | none ↦ m
  | some t ↦ elim t [ leaf l ↦ m | sub m' ↦ put_entry k (sub (remove (k' ∷ ks) m')) m ]
]

abbrev pub path : Text → List Text
path key = split b'.' key

unfoldable pub get_ok : Config → Text → Option Tree
get_ok c key = get (path key) c.values

unfoldable pub delete_key : Config → Text → Config
delete_key c key = record c { values = remove (path key) c.values }

unfoldable pub set_key_type_schema : Config → Text → SchemaType → Config
set_key_type_schema c key t = record c { schema = assign key t c.schema }

-- The ways in which a setting can fail, over all operations.
pub data SetError : Type 0 where
  no_schema bad_type : SetError
  key_not_found unhandled_type bad_value not_an_array : SetError

pub data Result : Type 0 where
  ok : Config → Result
  failed : SetError → Result
  panicked : Result

abbrev pub put : Config → Text → Leaf → Config
put c key v = record c { values = set (path key) v c.values }

module _ (float_uint : ℕ → ℕ) (float_int : ℕ → ℤ) where
  unfoldable pub set_converted : Config → Text → Converted → Result
  set_converted c key (converted v) = ok (put c key v)
  set_converted c key invalid = failed bad_type
  set_converted c key nil_panic = panicked

  -- `Set`.
  unfoldable pub set_key : Config → Text → Leaf → Result
  set_key c key v = if is_empty c.schema then ok (put c key v) else elim (lookup key c.schema) [
    | none ↦ failed no_schema
    | some t ↦ set_converted c key (try_conversion float_uint float_int v t)
  ]

-- The typed reads: the value, nothing there, or the error on another type.
pub data Got (A : Type 0) : Type 0 where
  found : A → Got A
  absent : Got A
  wrong_type : Got A

-- A read that takes one kind of value.
unfoldable pub read_with : {A : Type 0} → (Leaf → Option A) → Option Tree → Got A
read_with pick none = absent
read_with pick (some (sub m)) = wrong_type
read_with pick (some (leaf l)) = elim (pick l) [ none ↦ wrong_type | some a ↦ found a ]

-- `none` is the panic of the reads that return no error.
unfoldable pub or_panic : {A : Type 0} → A → Got A → Option A
or_panic zero_value (found a) = some a
or_panic zero_value absent = some zero_value
or_panic zero_value wrong_type = none

abbrev pub as_text : Leaf → Option Text
as_text (scalar (text s)) = some s
as_text _ = none

abbrev pub as_flag : Leaf → Option Bool
as_flag (scalar (flag b)) = some b
as_flag _ = none

abbrev pub as_uint : Leaf → Option ℕ
as_uint (scalar (uint n)) = some n
as_uint _ = none

abbrev pub as_int : Leaf → Option ℤ
as_int (scalar (int n)) = some n
as_int _ = none

abbrev pub as_uint32 : Leaf → Option ℕ
as_uint32 (scalar (uint32 n)) = some n
as_uint32 _ = none

unfoldable pub texts_of : List (Option Scalar) → Option (List Text)
texts_of [] = some []
texts_of (some (text s) ∷ xs) = elim (texts_of xs) [ none ↦ none | some ss ↦ some (s ∷ ss) ]
texts_of (_ ∷ xs) = none

abbrev pub as_texts : Leaf → Option (List Text)
as_texts (array any_type xs) = texts_of xs
as_texts (array (each text_type) xs) = texts_of xs
as_texts _ = none

unfoldable pub get_string : Config → Text → Option Text
get_string c key = or_panic [] (read_with as_text (get_ok c key))

unfoldable pub get_bool : Config → Text → Option Bool
get_bool c key = or_panic false (read_with as_flag (get_ok c key))

unfoldable pub get_uint : Config → Text → Option ℕ
get_uint c key = or_panic 0 (read_with as_uint (get_ok c key))

unfoldable pub get_int : Config → Text → Option ℤ
get_int c key = or_panic (pos 0) (read_with as_int (get_ok c key))

unfoldable pub get_uint32 : Config → Text → Option ℕ
get_uint32 c key = or_panic 0 (read_with as_uint32 (get_ok c key))

unfoldable pub get_string_slice : Config → Text → Option (List Text)
get_string_slice c key = or_panic [] (read_with as_texts (get_ok c key))
