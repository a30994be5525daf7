-- ===== src/Packages.antt =====
-- internal/arduino/cores/packagemanager/package_manager.go: which installed release of a platform is used, and how
-- an FQBN finds its board and the platforms of its core and its variant.
pub mod Boards
pub mod Options
pub mod Installed
pub mod Reference
pub mod Resolution
mod Tests
use arduino_cli_android.Prelude.{
  ℕ, Bool, true, false, not, ◌&&◌, List, [], ◌∷◌, ◌++◌, Option, none, some, ◌==◌, nat_eq, list_eq,
  if◌then◌else◌, lookup, ltb,
}
use arduino_cli_android.Strings.{Text, codes, split, is_empty}
use arduino_cli_android.Properties.{PropertiesMap}
use arduino_cli_android.Fqbn.{Fqbn}
use arduino_cli_android.Packages.Boards.{Board, Built, built, get_build_properties}

-- `managed` is what `IsManagedPlatformRelease` says. Versions are compared by the package
-- `relaxed-semver`; a number stands for each version, in its order.
pub record Release (B : Type 0) : Type 0 where
  pub address : ℕ
  pub version : ℕ
  pub managed : Bool
  pub boards : List (Text × B)

-- A platform is its installed releases, a package the platforms of its architectures.
pub record Package (B : Type 0) : Type 0 where
  pub name : Text
  pub platforms : List (Text × List (Release B))

module _ {B : Type 0} where
  -- Whether the candidate takes the place of the best release so far.
  unfoldable pub replaces : Release B → Release B → Bool
  replaces candidate best =
      if not candidate.managed && not best.managed
      then ltb best.version candidate.version
      else if not candidate.managed
      then false
      else if not best.managed
      then true
      else ltb best.version candidate.version

  unfoldable pub best_of : Release B → List (Release B) → Release B
  best_of best [] = best
  best_of best (candidate ∷ releases) =
      best_of (if replaces candidate best then candidate else best) releases

  -- `GetInstalledPlatformRelease`.
  unfoldable pub get_installed_platform_release : List (Release B) → Option (Release B)
  get_installed_platform_release [] = none
  get_installed_platform_release (r ∷ releases) = some (best_of r releases)

-- `package:name`, or a name alone.
unfoldable pub referred : List Text → Text × Text
referred [] = ([], [])
referred (name ∷ []) = ([], name)
referred (owner ∷ name ∷ rest) = (owner, name)

pub data ReferenceError : Type 0 where
  different_platforms missing_package missing_platform missing_release : ReferenceError

pub data Found (A : Type 0) : Type 0 where
  found : A → Found A
  not_found : ReferenceError → Found A

-- The core and the variant with the releases that hold them.
pub record Referenced (B : Type 0) : Type 0 where
  pub core : Text
  pub core_release : Release B
  pub variant : Text
  pub variant_release : Release B

module _ {B : Type 0} (packages : List (Text × Package B)) (architecture : Text) where
  -- The release of a package that is referred to.
  unfoldable pub referred_release : Text → Found (Release B)
  referred_release name = elim (lookup name packages) [
    | none ↦ not_found missing_package
    | some p ↦ elim (lookup architecture p.platforms) [
      | none ↦ not_found missing_platform
      | some releases ↦ elim (get_installed_platform_release releases) [
        | none ↦ not_found missing_release
        | some r ↦ found r
      ]
    ]
  ]

  -- `referred_to` is the release of the package that the core or the variant names.
  unfoldable pub with_referred : Release B → Text × Text → Text × Text → Release B → Referenced B
  with_referred board_release (owner, core) (owner', variant) referred_to = record {
    core = core;
    core_release = if is_empty owner then board_release else referred_to;
    variant = variant;
    variant_release = if is_empty owner' then board_release else referred_to;
  }

  abbrev pub first_name : Text → Text → Text
  first_name owner owner' = if is_empty owner then owner' else owner

  abbrev pub are_different : Text → Text → Bool
  are_different owner owner' =
      not (is_empty owner) && (not (is_empty owner') && not (owner == owner'))

  unfoldable pub determine_by : Release B → Text × Text → Text × Text → Found (Referenced B)
  determine_by board_release (owner, core) (owner', variant) =
      if are_different owner owner'
      then not_found different_platforms
      else if is_empty (first_name owner owner')
      then found (with_referred board_release (owner, core) (owner', variant) board_release)
      else elim (referred_release (first_name owner owner')) [
        | not_found e ↦ not_found e
        | found r ↦ found (with_referred board_release (owner, core) (owner', variant) r)
      ]

  -- `determineReferencedPlatformRelease`, on the expanded values of build.core and build.variant.
  unfoldable pub determine_referenced_platform_release :
      Text → Text → Release B → Found (Referenced B)
  determine_referenced_platform_release core variant board_release =
      determine_by board_release (referred (split b':' core)) (referred (split b':' variant))

-- What `ResolveFQBN` has found when it returns, up to the platforms of the build.
pub data Resolved (M B : Type 0) : Type 0 where
  unknown_package : Resolved M B
  unknown_platform not_installed : Package B → Resolved M B
  board_not_found : Package B → Release B → Resolved M B
  bad_configuration : Package B → Release B → B → Resolved M B
  bad_reference : Package B → Release B → B → ReferenceError → Resolved M B
  resolved : Package B → Release B → B → M → Referenced B → Resolved M B

-- `merge` is `Merge`, `expanded m key` is `ExpandPropsInString(Get(key))`, `upper` is `strings.ToUpper`.
module _ (P : PropertiesMap) (merge : P.Map → P.Map → P.Map) (expanded : P.Map → Text → Text)
    (upper : Text → Text) (packages : List (Text × Package (Board P))) where
  unfoldable pub resolve_reference :
      Package (Board P)
      → Release (Board P)
      → Board P
      → P.Map
      → Found (Referenced (Board P))
      → Resolved P.Map (Board P)
  resolve_reference p r b m (not_found e) = bad_reference p r b e
  resolve_reference p r b m (found f) = resolved p r b m f

  unfoldable pub resolve_board :
      Fqbn P → Package (Board P) → Release (Board P) → Board P → Resolved P.Map (Board P)
  resolve_board fqbn p r b = elim (get_build_properties P merge upper b fqbn) [
    | built m ↦ resolve_reference p r b m (
        determine_referenced_platform_release packages fqbn.architecture
          (expanded m (codes "build.core")) (expanded m (codes "build.variant")) r)
    | _ ↦ bad_configuration p r b
  ]

  unfoldable pub resolve_in_package : Fqbn P → Package (Board P) → Resolved P.Map (Board P)
  resolve_in_package fqbn p = elim (lookup fqbn.architecture p.platforms) [
    | none ↦ unknown_platform p
    | some releases ↦ elim (get_installed_platform_release releases) [
      | none ↦ not_installed p
      | some r ↦ elim (lookup fqbn.board_id r.boards) [
        | none ↦ board_not_found p r
        | some b ↦ resolve_board fqbn p r b
      ]
    ]
  ]

  unfoldable pub resolve_fqbn : Fqbn P → Resolved P.Map (Board P)
  resolve_fqbn fqbn = elim (lookup fqbn.vendor packages) [
    | none ↦ unknown_package
    | some p ↦ resolve_in_package fqbn p
  ]
