-- ===== src/Tools/Tests.antt =====
-- A release with a flavour for the host and one that runs by emulation.
use arduino_cli_android.Prelude.{List, [], ◌∷◌, some, true, ◌≡◌, refl, inl, inr, Elem, list_beq}
use arduino_cli_android.Strings.{codes}
use arduino_cli_android.Tools.Flavors.{
  Flavor, is_exact_match_with, get_flavour_compatible_with, windows64,
}
use arduino_cli_android.Tools.Flavors.Choice.{
  RightResource, get_flavour_compatible_with-RightResource, exact_match_wins,
}

abbrev win32 : Flavor
win32 = record { os = codes "i686-mingw32"; resource = 1 }

abbrev win64 : Flavor
win64 = record { os = codes "x86_64-mingw32"; resource = 2 }

abbrev flavors : List Flavor
flavors = win32 ∷ win64 ∷ []

win64_exact : is_exact_match_with win64 (codes "windows") (codes "amd64") ≡ true
unfolding is_exact_match_with list_beq windows64
win64_exact = refl

get_flavour_compatible_with-RightResource_example :
    RightResource
      (codes "windows")
      (codes "amd64")
      flavors
      (get_flavour_compatible_with flavors (codes "windows") (codes "amd64"))
get_flavour_compatible_with-RightResource_example =
    get_flavour_compatible_with-RightResource (codes "windows") (codes "amd64") flavors

exact_match_wins_example :
    (f : Flavor) × Elem f flavors
    × (is_exact_match_with f (codes "windows") (codes "amd64") ≡ true)
    × (get_flavour_compatible_with flavors (codes "windows") (codes "amd64") ≡ some f.resource)
exact_match_wins_example =
    exact_match_wins (codes "windows") (codes "amd64") flavors win64 (inr (inl refl)) win64_exact
