-- ===== src/OrderedMap.antt =====
-- internal/orderedmap/orderedmap.go: the map that keeps the order of insertion.
pub mod Laws
pub mod Set
pub mod Merge
mod Tests
use arduino_cli_android.Prelude.{
  ℕ, Bool, true, false, List, [], ◌∷◌, ◌++◌, map, Option, none, some, Eq, ◌==◌, if◌then◌else◌,
  map_keys, lookup, delete, assign, length,
}

-- `mapImpl`. The conversion turns a key into one that Go can compare.
pub record OrderedMap (K V C : Type 0) : Type 0 where
  pub conv : K → C
  pub kv : List (C × V)
  pub o : List K

module _ {K V C : Type 0} where
  -- `NewWithConversionFunc`; `New` is the case of the identity.
  unfoldable pub new_with_conversion_func : (K → C) → OrderedMap K V C
  new_with_conversion_func conv = record { conv = conv; kv = []; o = [] }

  unfoldable pub size : OrderedMap K V C → ℕ
  size m = length m.kv

  unfoldable pub keys : OrderedMap K V C → List K
  keys m = m.o

  -- `SortKeys` and `SortStableKeys` hand the list of keys to the sorting routine.
  unfoldable pub sort_keys : (List K → List K) → OrderedMap K V C → OrderedMap K V C
  sort_keys sort m = record m { o = sort m.o }

unfoldable pub new : {K V : Type 0} → OrderedMap K V K
unfolding new_with_conversion_func
new = new_with_conversion_func (λ k. k)

module _ {K C : Type 0} ⦃e : Eq C⦄ where
  -- The loop of `Remove` over `m.o`: the first key that compares equal goes.
  unfoldable pub remove_key : (K → C) → C → List K → List K
  remove_key conv comp_key [] = []
  remove_key conv comp_key (k ∷ ks) =
      if conv k == comp_key then ks else k ∷ remove_key conv comp_key ks

module _ {K V C : Type 0} ⦃e : Eq C⦄ where
  unfoldable pub get_ok : OrderedMap K V C → K → Option V
  get_ok m key = lookup (m.conv key) m.kv

  -- `Get` gives the zero value of the type for a missing key.
  unfoldable pub get : V → OrderedMap K V C → K → V
  get zero_value m key = elim (lookup (m.conv key) m.kv) [ none ↦ zero_value | some v ↦ v ]

  unfoldable pub contains_key : OrderedMap K V C → K → Bool
  contains_key m key = elim (lookup (m.conv key) m.kv) [ none ↦ false | some v ↦ true ]

  unfoldable pub remove : OrderedMap K V C → K → OrderedMap K V C
  unfolding remove_key
  remove m key = record m { kv = delete (m.conv key) m.kv; o = remove_key m.conv (m.conv key) m.o }

  unfoldable pub set : OrderedMap K V C → K → V → OrderedMap K V C
  unfolding remove contains_key
  set m key value =
      let m' = if contains_key m key then remove m key else m in
      record m' { kv = assign (m.conv key) value m'.kv; o = m'.o ++ (key ∷ []) }

  -- The inner loop of `Merge` over the keys of a source.
  unfoldable pub merge_keys : V → OrderedMap K V C → OrderedMap K V C → List K → OrderedMap K V C
  unfolding set get
  merge_keys zero_value m source [] = m
  merge_keys zero_value m source (key ∷ ks) =
      merge_keys zero_value (set m key (get zero_value source key)) source ks

  unfoldable pub merge : V → OrderedMap K V C → List (OrderedMap K V C) → OrderedMap K V C
  unfolding merge_keys
  merge zero_value m [] = m
  merge zero_value m (source ∷ sources) =
      merge zero_value (merge_keys zero_value m source (keys source)) sources

  unfoldable pub values : V → OrderedMap K V C → List V
  unfolding get
  values zero_value m = map (get zero_value m) m.o

  unfoldable pub clone : V → OrderedMap K V C → OrderedMap K V C
  unfolding merge
  clone zero_value m = merge zero_value (new_with_conversion_func m.conv) (m ∷ [])
