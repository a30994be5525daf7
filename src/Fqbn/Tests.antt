-- ===== src/Fqbn/Tests.antt =====
-- Tests of the FQBN operations, and their theorems at concrete inputs.
use arduino_cli_android.Prelude.{◌≡◌, refl, true, [], ◌↔◌, ◌⊎◌, ◌<◌}
use arduino_cli_android.Strings.{codes, count, split, cut, trim_space}
use arduino_cli_android.Properties.{PropertiesMap}
use arduino_cli_android.Properties.Ordered.{ordered_properties}
use arduino_cli_android.Fqbn.{
  Fqbn, ok, err, not_an_fqbn, empty_board, invalid_option, parse, to_string, match, is_name_char,
  is_value_char,
}
use arduino_cli_android.Fqbn.Valid.{IsValid, parse-IsValid, parse-not_an_fqbn}
use arduino_cli_android.Fqbn.RoundTrip.{parse-to_string, SameFqbn}
use arduino_cli_android.Fqbn.Matching.{match_iff, Provides}

abbrev uno : Fqbn ordered_properties
uno = record {
  vendor = codes "arduino";
  architecture = codes "avr";
  board_id = codes "uno";
  configs =
      PropertiesMap.set ordered_properties (PropertiesMap.new_map ordered_properties) (codes "cpu")
        (codes "m328");
}

parse-uno : parse ordered_properties (codes "arduino:avr:uno:cpu=m328") ≡ ok uno
unfolding parse split cut trim_space is_name_char is_value_char
parse-uno = refl

parse_errors :
    (parse ordered_properties (codes "arduino:avr:") ≡ err empty_board)
    × (parse ordered_properties (codes "arduino:avr:uno:") ≡ err (invalid_option []))
unfolding parse split cut trim_space is_name_char
parse_errors = (refl, refl)

uno-IsValid : IsValid ordered_properties uno
uno-IsValid = parse-IsValid ordered_properties (codes "arduino:avr:uno:cpu=m328") uno parse-uno

parse-to_string_example :
    (g : Fqbn ordered_properties) × (parse ordered_properties (to_string ordered_properties uno)
      ≡ ok g)
    × SameFqbn ordered_properties g uno
parse-to_string_example = parse-to_string ordered_properties uno uno-IsValid

match_iff_example : (match ordered_properties uno uno ≡ true) ↔ Provides ordered_properties uno uno
match_iff_example = match_iff ordered_properties uno uno uno-IsValid uno-IsValid

parse-IsValid_example : IsValid ordered_properties uno
parse-IsValid_example =
    parse-IsValid ordered_properties (codes "arduino:avr:uno:cpu=m328") uno parse-uno

parse-not_an_fqbn_example :
    (parse ordered_properties (codes "a:b") ≡ err (not_an_fqbn (codes "a:b"))) ↔ (
      (codes "a:b" ≡ codes "a:b")
      × ((count b':' (codes "a:b") < 2) ⊎ (3 < count b':' (codes "a:b"))))
parse-not_an_fqbn_example = parse-not_an_fqbn ordered_properties (codes "a:b") (codes "a:b")
