-- ===== src/Packages/Boards.antt =====
-- internal/arduino/cores/board.go: the build properties of a board with a configuration.
use arduino_cli_android.Prelude.{
  List, [], ◌∷◌, ◌++◌, none, some, nat_eq, list_eq, if◌then◌else◌, lookup,
}
use arduino_cli_android.Strings.{Text, codes, is_empty}
use arduino_cli_android.Properties.{PropertiesMap}
use arduino_cli_android.Fqbn.{Fqbn, to_string}

module _ (P : PropertiesMap) where
  -- A board with what `buildConfigOptionsStructures` made of its menus.
  pub record Board : Type 0 where
    pub board_id : Text
    pub architecture : Text
    pub properties : P.Map
    pub config_options : List (Text × Text)
    pub default_config : P.Map
    pub config_option_properties : List (Text × P.Map)

  pub data Built : Type 0 where
    built : P.Map → Built
    empty_option invalid_option invalid_value : Built

  -- The entries of `AsMap`, in the order of the keys; Go walks them in no fixed order.
  unfoldable pub entries_of : P.Map → List Text → List (Text × Text)
  entries_of m [] = []
  entries_of m (k ∷ ks) =
      let rest = entries_of m ks in elim (P.get_ok m k) [ none ↦ rest | some v ↦ (k, v) ∷ rest ]

  module _ (merge : P.Map → P.Map → P.Map) (upper : Text → Text) where
    -- The loop over the options.
    unfoldable pub add_options : Board → P.Map → List (Text × Text) → Built
    add_options b m [] = built m
    add_options b m ((option, value) ∷ config) =
        if is_empty option then empty_option else elim (lookup option b.config_options) [
          | none ↦ invalid_option
          | some label ↦ elim (lookup (option ++ (codes "=" ++ value)) b.config_option_properties) [
            | none ↦ invalid_value
            | some options_conf ↦ add_options b (merge m options_conf) config
          ]
        ]

    unfoldable pub base_properties : Board → Fqbn P → P.Map
    base_properties b fqbn =
        P.set (P.set (P.clone b.properties) (codes "build.fqbn") (to_string P fqbn))
          (codes "build.arch") (upper b.architecture)

    unfoldable pub get_build_properties : Board → Fqbn P → Built
    get_build_properties b fqbn =
        let config = merge (P.clone b.default_config) fqbn.configs in
        add_options b (base_properties b fqbn) (entries_of config (P.keys config))
