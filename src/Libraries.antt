-- ===== src/Libraries.antt =====
-- internal/arduino/libraries/libraries.go: a library, as far as the choice among libraries reads it.
pub mod Location
pub mod Collection
mod Tests
use arduino_cli_android.Prelude.{
  ℕ, Bool, true, false, ◌||◌, List, Option, member, list_eq, nat_eq, ◌==◌, any, if◌then◌else◌,
}
use arduino_cli_android.Strings.{Text, codes, is_empty}
use arduino_cli_android.Libraries.Location.{LibraryLocation}

-- `is_recursive` says that the layout is `RecursiveLayout`. `address` stands for the pointer by which Go compares two libraries, `container_platform` for the
-- pointer to the platform release. `source_headers` is what `SourceHeaders` returns: the names
-- cached or read from the folder, `none` where the folder cannot be read. `version` is none for a library
-- whose version cannot be parsed.
pub record Library : Type 0 where
  pub address : ℕ
  pub name : Text
  pub install_dir : Text
  pub dir_name : Text
  pub source_dir : Text
  pub utility_dir : Option Text
  pub is_recursive : Bool
  pub precompiled : Bool
  pub precompiled_with_sources : Bool
  pub is_legacy : Bool
  pub architectures : List Text
  pub location : LibraryLocation
  pub container_platform : Option ℕ
  pub version : Option ℕ
  pub source_headers : Option (List Text)

unfoldable pub is_optimized_for_architecture : Library → Text → Bool
is_optimized_for_architecture lib arch = member arch lib.architectures

unfoldable pub is_architecture_independent : Library → Bool
unfolding is_optimized_for_architecture
is_architecture_independent lib =
    is_optimized_for_architecture lib (codes "*") || is_empty lib.architectures

unfoldable pub is_compatible_with : Library → Text → Bool
unfolding is_architecture_independent
is_compatible_with lib arch =
    is_architecture_independent lib || is_optimized_for_architecture lib arch

unfoldable pub supports_any_architecture_in : Library → List Text → Bool
unfolding is_architecture_independent
supports_any_architecture_in lib archs =
    if is_architecture_independent lib
    then true
    else any (λ arch. arch == codes "*" || is_optimized_for_architecture lib arch) archs
