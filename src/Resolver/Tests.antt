-- ===== src/Resolver/Tests.antt =====
-- A resolver with a library of the user and one bundled with a platform.
use arduino_cli_android.Prelude.{
  none, true, false, ℕ, List, [], ◌∷◌, Option, some, ◌≡◌, ◌≢◌, refl, ◌<◌, ◌↔◌, Elem, list_beq,
  assign, lookup,
}
use arduino_cli_android.Strings.{Text, codes, to_lower, trim_suffix}
use arduino_cli_android.Libraries.{
  Library, is_optimized_for_architecture, is_architecture_independent,
}
use arduino_cli_android.Filenames.{sanitize_name}
use arduino_cli_android.Libraries.Location.{LibraryLocation, user, platform_builtin, unmanaged}
use arduino_cli_android.Resolver.{
  Headers, compute_priority, location_bonus, architecture_bonus, header_bonus, name_bonus, simplify,
  ext, ext_from, new_cpp_resolver, alternatives_for, resolve_for, same_pointer,
  scan_platform_libraries, scan_where, is_of_platform, scan_library, add_if_read, add_headers,
  scan_user_and_unmanaged_libraries, is_user_or_unmanaged, scan_ide_builtin_libraries,
  is_ide_builtin,
}
use arduino_cli_android.Libraries.Collection.{add}
use arduino_cli_android.Resolver.Priority.{Outranks, priority_iff_Outranks, unmanaged_outranks}
use arduino_cli_android.Resolver.Scan.{Elem-new_cpp_resolver, Offers}
use arduino_cli_android.Resolver.Places.{IsScanned}
use arduino_cli_android.Resolver.Resolution.{resolve-new_cpp_resolver, IsAnswer}

abbrev servo : LibraryLocation → ℕ → List Text → Library
servo place address architectures = record {
  address = address;
  name = codes "Servo";
  install_dir = [];
  source_dir = [];
  utility_dir = none;
  is_recursive = true;
  precompiled = false;
  precompiled_with_sources = false;
  is_legacy = false;
  dir_name = codes "Servo";
  architectures = architectures;
  location = place;
  container_platform = some 7;
  version = some 1;
  source_headers = some (codes "Servo.h" ∷ []);
}

abbrev of_user : Library
of_user = servo user 1 []

abbrev of_platform : Library
of_platform = servo platform_builtin 2 (codes "avr" ∷ [])

abbrev given : Library
given = servo unmanaged 3 []

abbrev installed : List Library
installed = of_user ∷ of_platform ∷ []

abbrev first_word : List Text → Text → Text
first_word [] name = []
first_word (word ∷ words) name = word

abbrev as_found : List Library → List Library
as_found libs = libs

abbrev headers : Headers
headers = (codes "Servo.h", of_user ∷ of_platform ∷ []) ∷ []

user≢unmanaged : user ≢ unmanaged
user≢unmanaged e = cc

platform≢unmanaged : platform_builtin ≢ unmanaged
platform≢unmanaged e = cc

priority_user : compute_priority of_user (codes "Servo.h") (codes "avr") ≡ some 1703
unfolding compute_priority location_bonus architecture_bonus is_optimized_for_architecture
    is_architecture_independent header_bonus name_bonus list_beq simplify to_lower sanitize_name
    trim_suffix ext ext_from
priority_user = refl

priority_platform : compute_priority of_platform (codes "Servo.h") (codes "avr") ≡ some 1712
unfolding compute_priority location_bonus architecture_bonus is_optimized_for_architecture
    is_architecture_independent header_bonus name_bonus list_beq simplify to_lower sanitize_name
    trim_suffix ext ext_from
priority_platform = refl

priority_given : compute_priority given (codes "Servo.h") (codes "avr") ≡ some 11700
unfolding compute_priority location_bonus architecture_bonus is_optimized_for_architecture
    is_architecture_independent header_bonus name_bonus list_beq simplify to_lower sanitize_name
    trim_suffix ext ext_from
priority_given = refl

scanned_headers : new_cpp_resolver installed (some 7) (some 7) ≡ headers
unfolding new_cpp_resolver same_pointer scan_platform_libraries scan_where is_of_platform
    scan_library add_if_read add_headers assign scan_user_and_unmanaged_libraries
    is_user_or_unmanaged scan_ide_builtin_libraries is_ide_builtin list_beq add alternatives_for
    lookup
scanned_headers = refl

priority_iff_Outranks_example :
    (1703 < 1712) ↔ Outranks (codes "Servo.h") (codes "avr") of_platform of_user
priority_iff_Outranks_example =
    priority_iff_Outranks (codes "Servo.h") (codes "avr") of_platform of_user 1712 1703
      platform≢unmanaged user≢unmanaged priority_platform priority_user

unmanaged_outranks_example : 1712 < 11700
unmanaged_outranks_example =
    unmanaged_outranks (codes "Servo.h") (codes "avr") given of_platform 11700 1712 refl
      platform≢unmanaged priority_given priority_platform

Elem-new_cpp_resolver_example :
    Elem of_user (alternatives_for (new_cpp_resolver installed (some 7) (some 7)) (codes "Servo.h"))
    ↔ (Elem of_user installed
        × IsScanned (some 7) (some 7) of_user
        × Offers of_user (codes "Servo.h"))
Elem-new_cpp_resolver_example =
    Elem-new_cpp_resolver installed (some 7) (some 7) (codes "Servo.h") of_user

resolve-new_cpp_resolver_example :
    (answer : Option Library) × (resolve_for first_word as_found
        (new_cpp_resolver installed (some 7) (some 7))
        (codes "Servo.h")
        (codes "avr")
      ≡ some answer)
    × IsAnswer
        (codes "Servo.h")
        (codes "avr")
        (alternatives_for (new_cpp_resolver installed (some 7) (some 7)) (codes "Servo.h"))
        answer
resolve-new_cpp_resolver_example =
    resolve-new_cpp_resolver first_word as_found (λ libs lib. (λ m. m, λ m. m)) installed (some 7)
      (some 7) (codes "Servo.h") (codes "avr")
