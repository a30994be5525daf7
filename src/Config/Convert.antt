-- ===== src/Config/Convert.antt =====
-- The values of a configuration, their types, and `tryConversion` of configuration.go.
use arduino_cli_android.Prelude.{
  ℕ, Bool, true, List, [], ◌∷◌, Option, none, some, ◌==◌, nat_eq, if◌then◌else◌, ◌≡◌, ◌↔◌, arith,
  Eq,
}
use arduino_cli_android.Strings.{Text, ℤ, pos}

-- A float64 is the number of its bits.
pub data Scalar : Type 0 where
  text : Text → Scalar
  flag : Bool → Scalar
  uint : ℕ → Scalar
  int : ℤ → Scalar
  uint32 : ℕ → Scalar
  float : ℕ → Scalar

pub data ScalarType : Type 0 where
  text_type flag_type uint_type int_type uint32_type float_type : ScalarType

-- The type of the elements of a slice; `any` holds scalars of all types.
pub data ElemType : Type 0 where
  any_type : ElemType
  each : ScalarType → ElemType

pub data SchemaType : Type 0 where
  one : ScalarType → SchemaType
  slice : ElemType → SchemaType

-- `array` is a slice with the type of its elements; `none` is a nil element, as a slice of `any` can hold.
-- Slices of slices are not modelled.
pub data Leaf : Type 0 where
  null : Leaf
  scalar : Scalar → Leaf
  array : ElemType → List (Option Scalar) → Leaf

abbrev pub scalar_type : Scalar → ScalarType
scalar_type (text s) = text_type
scalar_type (flag b) = flag_type
scalar_type (uint n) = uint_type
scalar_type (int n) = int_type
scalar_type (uint32 n) = uint32_type
scalar_type (float bits) = float_type

-- `reflect.TypeOf`; none for nil.
abbrev pub type_of : Leaf → Option SchemaType
type_of null = none
type_of (scalar s) = some (one (scalar_type s))
type_of (array e xs) = some (slice e)

abbrev pub rank : ScalarType → ℕ
rank text_type = 0
rank flag_type = 1
rank uint_type = 2
rank int_type = 3
rank uint32_type = 4
rank float_type = 5

pub rank_iff : (a b : ScalarType) → ((rank a == rank b) ≡ true) ↔ (a ≡ b)
rank_iff a b = ground arith

instance abbrev pub scalar_type_eq : Eq ScalarType
scalar_type_eq = record { test = λ a b. rank a == rank b; test_iff = rank_iff }

-- The value, the error, or the panic on the type of nil.
pub data Converted : Type 0 where
  converted : Leaf → Converted
  invalid : Converted
  nil_panic : Converted

-- The elements of the new slice, the error, or the panic on the type of a nil element.
pub data Elements : Type 0 where
  elements : List (Option Scalar) → Elements
  bad_element : Elements
  nil_element : Elements

-- `float_uint` and `float_int` are Go's conversions of a float64.
module _ (float_uint : ℕ → ℕ) (float_int : ℕ → ℤ) where
  -- A conversion between scalars of different types; `safecast` refuses a negative number.
  unfoldable pub convert_number : Scalar → ScalarType → Option Scalar
  convert_number (float bits) uint_type = some (uint (float_uint bits))
  convert_number (int (pos n)) uint_type = some (uint n)
  convert_number (float bits) int_type = some (int (float_int bits))
  convert_number _ _ = none

  unfoldable pub convert_scalar : Scalar → ScalarType → Option Scalar
  convert_scalar s t = if scalar_type s == t then some s else convert_number s t

  -- The loop over the elements of a slice.
  unfoldable pub convert_all : List (Option Scalar) → ScalarType → Elements
  convert_all [] t = elements []
  convert_all (none ∷ xs) t = nil_element
  convert_all (some s ∷ xs) t = elim (convert_scalar s t) [
    | none ↦ bad_element
    | some s' ↦ elim (convert_all xs t) [
      | elements xs' ↦ elements (some s' ∷ xs')
      | bad_element ↦ bad_element
      | nil_element ↦ nil_element
    ]
  ]

  abbrev pub of_scalar : Option Scalar → Converted
  of_scalar none = invalid
  of_scalar (some s) = converted (scalar s)

  abbrev pub of_array : ElemType → Elements → Converted
  of_array e (elements xs) = converted (array e xs)
  of_array e bad_element = invalid
  of_array e nil_element = nil_panic

  unfoldable pub convert_array : ElemType → List (Option Scalar) → ElemType → Converted
  convert_array any_type xs any_type = converted (array any_type xs)
  convert_array any_type xs (each t) = of_array (each t) (convert_all xs t)
  convert_array (each t) xs any_type = invalid
  convert_array (each t) xs (each u) = if t == u then converted (array (each t) xs) else invalid

  unfoldable pub try_conversion : Leaf → SchemaType → Converted
  try_conversion null (one t) = nil_panic
  try_conversion null (slice e) = converted (array e [])
  try_conversion (scalar s) (one t) = of_scalar (convert_scalar s t)
  try_conversion (scalar s) (slice e) = invalid
  try_conversion (array e xs) (one t) = invalid
  try_conversion (array e xs) (slice e') = convert_array e xs e'
