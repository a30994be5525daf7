-- ===== src/Detector/Start.antt =====
-- `FindIncludes`, `findIncludes` and `failIfImportedLibraryIsWrong` of detector.go: what is queued and staged before
-- the search, and the checks after it. The files libraries.cache and includes.cache are values.
use arduino_cli_android.Prelude.{
  ℕ, Bool, true, false, not, List, [], ◌∷◌, ◌++◌, Option, none, some, ◌==◌, nat_eq, list_eq,
  if◌then◌else◌,
}
use arduino_cli_android.Strings.{Text, codes}
use arduino_cli_android.SourceFile.{SourceFile, push}
use arduino_cli_android.Libraries.{Library}
use arduino_cli_android.Libraries.Location.{profile}
use arduino_cli_android.Libraries.Collection.{location_eq}
use arduino_cli_android.Resolver.{Headers}
use arduino_cli_android.Detector.{
  Search, Outcome, SearchError, done, failed, source_file_error, arch_folder, missing_property,
  two_layouts, add_include_folder, stage_library_for_inclusion, mandatory_properties, process_queue,
}
use arduino_cli_android.Detector.Outside.{World}
use arduino_cli_android.Detector.Cache.{Entry, load}
use arduino_cli_android.Detector.Queue.{make_source_file, queue_source_files_from_folder}

-- `all_installed` is what `FindAllInstalled` gives; `cached_include_folders` is none where libraries.cache is missing.
pub record Request : Type 0 where
  pub build_core_path : Text
  pub build_variant_path : Option Text
  pub sketch_build_path : Text
  pub main_file_base : Text
  pub libraries_build_path : Text
  pub platform_arch : Text
  pub all_installed : List Library
  pub cache_entries : List Entry
  pub cached_include_folders : Option (List Text)
  pub use_cached_libraries_resolution : Bool
  pub only_update_compilation_database : Bool

-- `NewSketchLibrariesDetector`, and `Load` of the cache.
unfoldable pub new_search : Headers → List Entry → Search
new_search headers entries = record {
  headers = headers;
  staged = [];
  imported = [];
  resolutions = [];
  include_folders = [];
  cache = load entries;
  queue = [];
}

unfoldable pub stage_profile_libraries : List Library → Search → Search
stage_profile_libraries [] s = s
stage_profile_libraries (lib ∷ libs) s = stage_profile_libraries libs (
    if lib.location == profile
    then add_include_folder (stage_library_for_inclusion s lib) lib.source_dir
    else s)

module _ (w : World) where
  unfoldable pub lacks_property : Library → List Text → Bool
  lacks_property lib [] = false
  lacks_property lib (name ∷ names) =
      let rest = lacks_property lib names in if not (w.has_property lib name) then true else rest

  -- `failIfImportedLibraryIsWrong`.
  unfoldable pub fail_if_imported_library_is_wrong : List Library → Option SearchError
  fail_if_imported_library_is_wrong [] = none
  fail_if_imported_library_is_wrong (lib ∷ libs) =
      let rest = fail_if_imported_library_is_wrong libs in
      if lib.is_legacy
      then rest
      else if w.is_dir (w.join lib.install_dir (codes "arch"))
      then some arch_folder
      else if lacks_property lib mandatory_properties
      then some missing_property
      else if lib.is_recursive
      then elim lib.utility_dir [ some dir ↦ some two_layouts | none ↦ rest ]
      else rest

  module _ (r : Request) where
    unfoldable pub first_folders : Search → Search
    first_folders s =
        let s' = add_include_folder s r.build_core_path in
        elim r.build_variant_path [ none ↦ s' | some path ↦ add_include_folder s' path ]

    -- The files of the sketch, and those of its folder src if there is one.
    unfoldable pub queue_sketch : SourceFile → List SourceFile → List SourceFile
    queue_sketch merged_sketch queue =
        let dir = r.sketch_build_path in
        let sketch_files =
          queue_source_files_from_folder w dir false dir dir
            ((r.main_file_base ++ codes ".cpp") ∷ []) none (push w.equals_to queue merged_sketch) in
        let src = w.join dir (codes "src") in
        if w.is_dir src
        then queue_source_files_from_folder w src true dir dir [] none sketch_files
        else sketch_files

    unfoldable pub prepare : Search → SourceFile → Search
    prepare s merged_sketch =
        let s' = first_folders s in
        stage_profile_libraries (w.sort_by_name r.all_installed)
          (record s' { queue = queue_sketch merged_sketch s'.queue })

    unfoldable pub check_imported : Outcome → Outcome
    check_imported (done s) = elim (fail_if_imported_library_is_wrong s.imported) [
      | none ↦ done s
      | some e ↦ failed e s
    ]
    check_imported outcome = outcome

    -- `findIncludes` after the return with the folders of the last build.
    unfoldable pub search_libraries : ℕ → ℕ → Search → Outcome
    search_libraries inner fuel s =
        elim (make_source_file w r.sketch_build_path r.sketch_build_path
          (r.main_file_base ++ codes ".cpp.merged") none) [
            | none ↦ failed source_file_error s
            | some merged_sketch ↦ check_imported (
                if r.use_cached_libraries_resolution
                then done (first_folders s)
                else process_queue w r.libraries_build_path r.platform_arch inner fuel
                    (prepare s merged_sketch))
          ]

    abbrev pub cached_folders : Bool → Option (List Text) → Option (List Text)
    cached_folders use_cached folders = if use_cached then folders else none

    unfoldable pub find_includes_in : ℕ → ℕ → Headers → Outcome
    find_includes_in inner fuel headers =
        elim (cached_folders r.use_cached_libraries_resolution r.cached_include_folders) [
          | some folders ↦ done (record (new_search headers []) { include_folders = folders })
          | none ↦ search_libraries inner fuel (new_search headers r.cache_entries)
        ]

    -- `FindIncludes`, which drops the error where only the compilation database is updated.
    unfoldable pub drop_error : Outcome → Outcome
    drop_error (failed e s) = if r.only_update_compilation_database then done s else failed e s
    drop_error outcome = outcome

    unfoldable pub find_includes : ℕ → ℕ → Headers → Outcome
    find_includes inner fuel headers = drop_error (find_includes_in inner fuel headers)
