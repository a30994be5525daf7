-- ===== src/Packages/Tests.antt =====
-- A package with one platform, of which two releases are installed.
use arduino_cli_android.Prelude.{
  true, false, List, [], ◌∷◌, Option, none, some, ◌≡◌, ◌∙◌, assign, delete, refl, Elem, lookup,
  list_beq,
}
use arduino_cli_android.Strings.{Text, codes, split}
use arduino_cli_android.Properties.{PropertiesMap}
use arduino_cli_android.Properties.Ordered.{ordered_properties, text_merge, text_get_ok-merge}
use arduino_cli_android.Fqbn.{Fqbn}
use arduino_cli_android.Packages.Boards.{
  Board, base_properties, entries_of, add_options, get_build_properties,
}
use arduino_cli_android.Packages.{
  Release, Package, Referenced, referred, found, replaces, best_of, get_installed_platform_release,
  determine_referenced_platform_release, determine_by, referred_release, with_referred,
  resolve_fqbn, resolved, resolve_in_package, resolve_board, resolve_reference,
}
use arduino_cli_android.Packages.Installed.{IsNoBetter, get_installed_platform_release-IsNoBetter}
use arduino_cli_android.Packages.Reference.{IsReferenced, determine-IsReferenced}
use arduino_cli_android.Packages.Resolution.{IsResolution, resolve_fqbn-IsResolution}
use arduino_cli_android.Packages.Options.{first_of}
use arduino_cli_android.OrderedMap

abbrev Properties : PropertiesMap
Properties = ordered_properties

abbrev nothing : PropertiesMap.Map Properties
nothing = PropertiesMap.new_map Properties

abbrev of_m328 : PropertiesMap.Map Properties
of_m328 = PropertiesMap.set Properties nothing (codes "build.mcu") (codes "atmega328p")

abbrev uno : Board Properties
uno = record {
  board_id = codes "uno";
  architecture = codes "avr";
  properties = nothing;
  config_options = (codes "cpu", codes "Processor") ∷ [];
  default_config = nothing;
  config_option_properties = (codes "cpu=m328", of_m328) ∷ [];
}

abbrev by_hand : Release (Board Properties)
by_hand = record { address = 1; version = 9; managed = false; boards = (codes "uno", uno) ∷ [] }

abbrev managed_one : Release (Board Properties)
managed_one = record { address = 2; version = 5; managed = true; boards = (codes "uno", uno) ∷ [] }

abbrev arduino : Package (Board Properties)
arduino = record {
  name = codes "arduino";
  platforms = (codes "avr", by_hand ∷ managed_one ∷ []) ∷ [];
}

abbrev known : List (Text × Package (Board Properties))
known = (codes "arduino", arduino) ∷ []

get_installed_platform_release-IsNoBetter_example :
    (best : Release (Board Properties)) × (get_installed_platform_release
        (by_hand ∷ managed_one ∷ [])
      ≡ some best)
    × Elem best (by_hand ∷ managed_one ∷ [])
    × ((other : Release (Board Properties))
        → Elem other (by_hand ∷ managed_one ∷ [])
        → IsNoBetter other best)
get_installed_platform_release-IsNoBetter_example =
    get_installed_platform_release-IsNoBetter by_hand (managed_one ∷ [])

abbrev with_core : Referenced (Board Properties)
with_core = record {
  core = codes "core";
  core_release = managed_one;
  variant = codes "standard";
  variant_release = by_hand;
}

core_of_arduino :
    determine_referenced_platform_release known
      (codes "avr")
      (codes "arduino:core")
      (codes "standard")
      by_hand
    ≡ found with_core
unfolding determine_referenced_platform_release determine_by referred_release with_referred referred
    split lookup list_beq get_installed_platform_release best_of replaces
core_of_arduino = refl

determine-IsReferenced_example :
    IsReferenced known
      (codes "avr")
      by_hand
      (referred (split b':' (codes "arduino:core")))
      (referred (split b':' (codes "standard")))
      with_core
determine-IsReferenced_example =
    determine-IsReferenced known (codes "avr") by_hand (codes "arduino:core") (codes "standard")
      with_core core_of_arduino

abbrev merge :
    PropertiesMap.Map Properties → PropertiesMap.Map Properties → PropertiesMap.Map Properties
merge = text_merge

abbrev fixed : PropertiesMap.Map Properties → Text → Text
fixed m key = codes "arduino"

abbrev as_is : Text → Text
as_is s = s

abbrev wanted : Fqbn Properties
wanted = record {
  vendor = codes "arduino";
  architecture = codes "avr";
  board_id = codes "uno";
  configs = PropertiesMap.set Properties nothing (codes "cpu") (codes "m328");
}

abbrev own : Referenced (Board Properties)
own = record {
  core = codes "arduino";
  core_release = managed_one;
  variant = codes "arduino";
  variant_release = managed_one;
}

-- The properties of the board, and those of the option of the FQBN.
abbrev wanted_properties : PropertiesMap.Map Properties
wanted_properties = merge (base_properties Properties merge as_is uno wanted) of_m328

wanted_resolved :
    resolve_fqbn Properties merge fixed as_is known wanted
    ≡ resolved arduino managed_one uno wanted_properties own
unfolding resolve_fqbn resolve_in_package resolve_board resolve_reference
    determine_referenced_platform_release determine_by referred_release with_referred referred split
    lookup list_beq get_installed_platform_release best_of replaces entries_of add_options
    get_build_properties OrderedMap.get_ok OrderedMap.set OrderedMap.merge OrderedMap.merge_keys
    OrderedMap.clone OrderedMap.new_with_conversion_func OrderedMap.keys OrderedMap.get
    OrderedMap.contains_key OrderedMap.remove OrderedMap.remove_key assign delete
wanted_resolved = refl

merge_law :
    (m n : PropertiesMap.Map Properties) (k : Text)
    → PropertiesMap.get_ok Properties (merge m n) k
      ≡ first_of (PropertiesMap.get_ok Properties n k) (PropertiesMap.get_ok Properties m k)
merge_law m n k = text_get_ok-merge m n k ∙ last_wins (PropertiesMap.get_ok Properties n k)
  where
    last_wins :
        (o : Option Text)
        → elim o [ none ↦ PropertiesMap.get_ok Properties m k | some v ↦ some v ]
          ≡ first_of o (PropertiesMap.get_ok Properties m k)
    last_wins none = refl
    last_wins (some v) = refl

resolve_fqbn-IsResolution_example :
    IsResolution Properties merge fixed as_is known wanted arduino managed_one uno wanted_properties
      own
resolve_fqbn-IsResolution_example =
    resolve_fqbn-IsResolution Properties merge fixed as_is known wanted merge_law arduino
      managed_one uno wanted_properties own wanted_resolved
