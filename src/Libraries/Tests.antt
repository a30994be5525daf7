-- ===== src/Libraries/Tests.antt =====
-- Two libraries of one name at different places.
use arduino_cli_android.Prelude.{true, false, ℕ, List, [], ◌∷◌, none, some, ◌≡◌, refl, nat_eq}
use arduino_cli_android.Strings.{codes}
use arduino_cli_android.Libraries.{Library}
use arduino_cli_android.Libraries.Location.{LibraryLocation, user, platform_builtin}
use arduino_cli_android.Libraries.Collection.{
  filter_by_version_and_install_location, is_passed_over, Filters, Filters-filter,
}

abbrev wire : LibraryLocation → ℕ → Library
wire place version = record {
  address = version;
  name = codes "Wire";
  install_dir = [];
  source_dir = [];
  utility_dir = none;
  is_recursive = true;
  precompiled = false;
  precompiled_with_sources = false;
  is_legacy = false;
  dir_name = codes "Wire";
  architectures = [];
  location = place;
  container_platform = none;
  version = some version;
  source_headers = none;
}

abbrev installed : List Library
installed = wire user 1 ∷ wire platform_builtin 2 ∷ []

Filters-filter_example :
    Filters installed (some 1) user (filter_by_version_and_install_location installed (some 1) user)
Filters-filter_example = Filters-filter installed (some 1) user

abbrev without_version : List Library
without_version = record (wire user 3) { version = none } ∷ installed

no_version_panics : filter_by_version_and_install_location without_version (some 1) user ≡ none
unfolding filter_by_version_and_install_location is_passed_over
no_version_panics = refl
