-- ===== src/Properties.antt =====
-- The map of the package `go-properties-orderedmap`, which this repository only calls: texts to
-- texts, in the order of insertion. Its operations and what its documentation says of them are an
-- interface; Properties/Ordered.antt meets it with the repository's own ordered map.
pub mod Ordered
use arduino_cli_android.Prelude.{
  ℕ, Bool, true, false, List, [], ◌∷◌, ◌++◌, Option, none, some, ◌≡◌, ◌==◌, if◌then◌else◌, list_eq,
  nat_eq, Uniq, member,
}
use arduino_cli_android.Strings.{Text}

pub record PropertiesMap : Type 1 where
  pub Map : Type 0
  -- `NewMap`, `Set`, `GetOk`, `Keys`, `Clone`.
  pub new_map : Map
  pub set : Map → Text → Text → Map
  pub get_ok : Map → Text → Option Text
  pub keys : Map → List Text
  pub clone : Map → Map
  -- What they do.
  pub get_ok-new_map : (k : Text) → get_ok new_map k ≡ none
  pub keys-new_map : keys new_map ≡ []
  pub get_ok-set :
      (m : Map) (k v j : Text) → get_ok (set m k v) j ≡ (if k == j then some v else get_ok m j)
  pub keys-set_new :
      (m : Map) (k v : Text) → get_ok m k ≡ none → keys (set m k v) ≡ keys m ++ (k ∷ [])
  pub keys_unique : (m : Map) → Uniq (keys m)
  pub keys_bound :
      (m : Map) (k : Text) → member k (keys m) ≡ true → (v : Text) × (get_ok m k ≡ some v)
  pub keys_all : (m : Map) (k v : Text) → get_ok m k ≡ some v → member k (keys m) ≡ true
  pub get_ok-clone : (m : Map) (k : Text) → get_ok (clone m) k ≡ get_ok m k
  pub keys-clone : (m : Map) → keys (clone m) ≡ keys m
