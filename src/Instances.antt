-- ===== src/Instances.antt =====
-- commands/internal/instances/instances.go: the table of the running instances. Managers and indexes
-- are numbers for the pointers to them. Each operation is one step; an id is the bit pattern of an
-- int32.
pub mod Lifecycle
pub mod History
mod Tests
use arduino_cli_android.Prelude.{
  ℕ, zero, suc, ◌+◌, ◌%◌, ◌^◌, Bool, true, false, List, [], ◌∷◌, Option, none, some, lookup, assign,
  delete, nat_eq,
}

pub record CoreInstance : Type 0 where
  pub pm : ℕ
  pub lm : ℕ
  pub li : ℕ

-- The package variables, and the package managers that `Destroy` was called on.
pub record Store : Type 0 where
  pub instances : List (ℕ × CoreInstance)
  pub instances_count : ℕ
  pub destroyed : List ℕ

abbrev pub int32_values : ℕ
int32_values = 2 ^ 32

abbrev pub start : Store
start = record { instances = []; instances_count = 1; destroyed = [] }

abbrev pub map_instance {ℓ} : {B : Type ℓ} → (CoreInstance → B) → Option CoreInstance → Option B
map_instance f none = none
map_instance f (some i) = some (f i)

-- `none` is the error `InvalidInstanceError`.
unfoldable pub get_package_manager : Store → ℕ → Option ℕ
get_package_manager s id = map_instance (λ i. i.pm) (lookup id s.instances)

unfoldable pub get_library_manager : Store → ℕ → Option ℕ
get_library_manager s id = map_instance (λ i. i.lm) (lookup id s.instances)

unfoldable pub get_libraries_index : Store → ℕ → Option ℕ
get_libraries_index s id = map_instance (λ i. i.li) (lookup id s.instances)

-- A change of the instance at an id, and whether there is one.
unfoldable pub update : (CoreInstance → CoreInstance) → Store → ℕ → Store × Bool
update change s id = elim (lookup id s.instances) [
  | none ↦ (s, false)
  | some i ↦ (
    record {
      instances = assign id (change i) s.instances;
      instances_count = s.instances_count;
      destroyed = s.destroyed;
    },
    true,
  )
]

-- False stands for the error.
unfoldable pub set_libraries_index : Store → ℕ → ℕ → Store × Bool
set_libraries_index s id li = update (λ i. record { pm = i.pm; lm = i.lm; li = li }) s id

unfoldable pub set_library_manager : Store → ℕ → ℕ → Store × Bool
set_library_manager s id lm = update (λ i. record { pm = i.pm; lm = lm; li = i.li }) s id

-- `pm` and `lm` are what the builders give, `empty_index` is `librariesindex.EmptyIndex`.
unfoldable pub create : ℕ → Store → ℕ → ℕ → Store × ℕ
create empty_index s pm lm = (
  record {
    instances =
        assign s.instances_count (record { pm = pm; lm = lm; li = empty_index }) s.instances;
    instances_count = (s.instances_count + 1) % int32_values;
    destroyed = s.destroyed;
  },
  s.instances_count,
)

unfoldable pub is_valid : Store → ℕ → Bool
is_valid s id = elim (lookup id s.instances) [ none ↦ false | some i ↦ true ]

abbrev pub destroy : Option CoreInstance → List ℕ → List ℕ
destroy none destroyed = destroyed
destroy (some i) destroyed = i.pm ∷ destroyed

-- The function `Delete`.
unfoldable pub remove_instance : Store → ℕ → Store × Bool
remove_instance s id = (
  record {
    instances = delete id s.instances;
    instances_count = s.instances_count;
    destroyed = destroy (lookup id s.instances) s.destroyed;
  },
  is_valid s id,
)
