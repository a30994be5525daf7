-- ===== src/Resolver.antt =====
-- internal/arduino/libraries/librariesresolver/cpp.go: which library provides a C++ header.

pub mod Priority
pub mod Places
pub mod Scan
pub mod Resolution
mod Tests
use arduino_cli_android.Prelude.{
  ℕ, suc, ◌+◌, Bool, true, false, not, ◌&&◌, ◌||◌, List, [], ◌∷◌, ◌++◌, Option, none, some, ◌==◌,
  nat_eq, list_eq, if◌then◌else◌, ltb, lookup, assign, length, map,
}
use arduino_cli_android.Strings.{
  Text, codes, has_prefix, has_suffix, contains, to_lower, trim_suffix, is_empty,
}
use arduino_cli_android.Filenames.{sanitize_name}
use arduino_cli_android.Libraries.{
  Library, is_optimized_for_architecture, is_architecture_independent,
}
use arduino_cli_android.Libraries.Location.{
  LibraryLocation, ide_builtin, platform_builtin, referenced_platform_builtin, user, unmanaged,
  profile,
}
use arduino_cli_android.Libraries.Collection.{add, location_eq}

-- `Cpp`: the libraries that provide each header, in the order of the scan.
abbrev pub Headers : Type 0
Headers = List (Text × List Library)

-- `resolver.headers[header]`; a missing key gives the empty list.
unfoldable pub alternatives_for : Headers → Text → List Library
alternatives_for headers header = elim (lookup header headers) [ none ↦ [] | some l ↦ l ]

-- The loop of `ScanLibrary` over the headers of a library.
unfoldable pub add_headers : Headers → Library → List Text → Headers
add_headers headers lib [] = headers
add_headers headers lib (h ∷ hs) =
    add_headers (assign h (add (alternatives_for headers h) (lib ∷ [])) headers) lib hs

-- `ScanLibrary`; the callers pass over its error, and the headers stay as they are.
unfoldable pub add_if_read : Headers → Library → Option (List Text) → Headers
add_if_read headers lib none = headers
add_if_read headers lib (some hs) = add_headers headers lib hs

unfoldable pub scan_library : Headers → Library → Headers
scan_library headers lib = add_if_read headers lib lib.source_headers

-- The three scans are one loop with three tests.
unfoldable pub scan_where : (Library → Bool) → Headers → List Library → Headers
scan_where test headers [] = headers
scan_where test headers (lib ∷ libs) =
    scan_where test (if test lib then scan_library headers lib else headers) libs

unfoldable pub is_ide_builtin : Library → Bool
is_ide_builtin lib = lib.location == ide_builtin

unfoldable pub is_user_or_unmanaged : Library → Bool
is_user_or_unmanaged lib = lib.location == user || lib.location == unmanaged

unfoldable pub same_pointer : Option ℕ → Option ℕ → Bool
same_pointer none none = true
same_pointer (some a) (some b) = a == b
same_pointer _ _ = false

-- `platform` is the pointer to the release, `none` for nil.
unfoldable pub is_of_platform : Option ℕ → Library → Bool
is_of_platform platform lib =
    if not (lib.location == platform_builtin) && not (lib.location == referenced_platform_builtin)
    then false
    else if not (same_pointer lib.container_platform platform)
    then false
    else true

-- `ScanIDEBuiltinLibraries`, `ScanUserAndUnmanagedLibraries`, `ScanPlatformLibraries`.
unfoldable pub scan_ide_builtin_libraries : Headers → List Library → Headers
scan_ide_builtin_libraries = scan_where is_ide_builtin

unfoldable pub scan_user_and_unmanaged_libraries : Headers → List Library → Headers
scan_user_and_unmanaged_libraries = scan_where is_user_or_unmanaged

unfoldable pub scan_platform_libraries : Option ℕ → Headers → List Library → Headers
scan_platform_libraries platform = scan_where (is_of_platform platform)

unfoldable pub new_cpp_resolver : List Library → Option ℕ → Option ℕ → Headers
new_cpp_resolver all_libs target_platform actual_platform =
    let builtin = scan_ide_builtin_libraries [] all_libs in
    let users = scan_user_and_unmanaged_libraries builtin all_libs in
    let target = scan_platform_libraries target_platform users all_libs in
    if not (same_pointer actual_platform target_platform)
    then scan_platform_libraries actual_platform target all_libs
    else target

unfoldable pub simplify : Text → Text
simplify name = to_lower (sanitize_name name)

-- `filepath.Ext`: from the last dot of the last part of the path.
unfoldable pub ext_from : Text → Text → Text
ext_from found [] = found
ext_from found (c ∷ s) = ext_from (if c == b'/' then [] else if c == b'.' then c ∷ s else found) s

unfoldable pub ext : Text → Text
ext path = ext_from [] path

unfoldable pub architecture_bonus : Library → Text → ℕ
architecture_bonus lib arch =
    if is_optimized_for_architecture lib arch
    then 1010
    else if is_architecture_independent lib
    then 1000
    else 0

-- The ladder of name tests, on the simplified names of the library, its folder and the header.
unfoldable pub name_bonus : Text → Text → Text → ℕ
name_bonus name dir_name header =
    if name == header && dir_name == header
    then 700
    else if name == header || dir_name == header
    then 600
    else if name == header ++ codes "-main" || dir_name == header ++ codes "-main"
    then 500
    else if name == header ++ codes "-master" || dir_name == header ++ codes "-master"
    then 400
    else if has_prefix header name || has_prefix header dir_name
    then 300
    else if has_suffix header name || has_suffix header dir_name
    then 200
    else if contains header name || contains header dir_name
    then 100
    else 0

-- `none` is the panic on an invalid location.
unfoldable pub location_bonus : LibraryLocation → Option ℕ
location_bonus ide_builtin = some 0
location_bonus referenced_platform_builtin = some 1
location_bonus platform_builtin = some 2
location_bonus user = some 3
location_bonus unmanaged = some 10000
location_bonus profile = none

unfoldable pub header_bonus : Library → Text → ℕ
header_bonus lib header =
    name_bonus (simplify lib.name) (simplify lib.dir_name)
      (simplify (trim_suffix (ext header) header))

unfoldable pub compute_priority : Library → Text → Text → Option ℕ
compute_priority lib header arch = elim (location_bonus lib.location) [
  | none ↦ none
  | some bonus ↦ some (architecture_bonus lib arch + header_bonus lib header + bonus)
]

-- The loop of `ResolveFor`: the libraries found with the priority that they share. The outer `none`
-- is a panic; an empty list stands for the nil list before the first round.
unfoldable pub best_libraries :
    Text → Text → List Library → ℕ → List Library → Option (List Library)
best_libraries header architecture found found_priority [] = some found
best_libraries header architecture found found_priority (lib ∷ libs) =
    elim (compute_priority lib header architecture) [
      | none ↦ none
      | some lib_priority ↦
          let better = is_empty found || ltb found_priority lib_priority in
          let equal = found_priority == lib_priority in
          best_libraries header architecture
            (if better then lib ∷ [] else if equal then found ++ (lib ∷ []) else found)
            (if better then lib_priority else found_priority) libs
    ]

-- `closest` is the answer of the package `closestmatch`, for the words to test and the name.
module _ (closest : List Text → Text → Text) where
  unfoldable pub find_named : Text → List Library → Option Library
  find_named closest_name [] = none
  find_named closest_name (lib ∷ libs) =
      if closest_name == simplify lib.name then some lib else find_named closest_name libs

  unfoldable pub find_library_with_name_best_distance : Text → List Library → Option Library
  find_library_with_name_best_distance name libs =
      find_named (closest (map (λ lib. simplify lib.name) libs) name) libs

  -- `sort_by_name` is `sort.Slice` by the names; Go does not say how it orders equal names.
  module _ (sort_by_name : List Library → List Library) where
    unfoldable pub first : List Library → Option Library
    first [] = none
    first (lib ∷ libs) = some lib

    unfoldable pub pick : Text → List Library → Option Library
    pick header [] = none
    pick header (lib ∷ []) = some lib
    pick header (lib ∷ lib' ∷ libs) =
        elim (find_library_with_name_best_distance header (lib ∷ lib' ∷ libs)) [
          | some best ↦ some best
          | none ↦ first (sort_by_name (lib ∷ lib' ∷ libs))
        ]

    -- The outer `none` is a panic, the inner one the answer nil.
    unfoldable pub resolve_for : Headers → Text → Text → Option (Option Library)
    resolve_for headers header architecture =
        elim (best_libraries header architecture [] 0 (alternatives_for headers header)) [
          | none ↦ none
          | some found ↦ some (pick header found)
        ]
