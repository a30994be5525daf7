-- ===== src/Detector.antt =====
-- internal/arduino/builder/internal/detector/detector.go: the search for the libraries that a sketch
-- includes. The files are preprocessed one by one; a header that is missing brings in a library.
pub mod Cache
pub mod Finder
pub mod Outside
pub mod Queue
pub mod Start
pub mod Weights
pub mod Candidates
pub mod Rounds
pub mod Loops
pub mod Termination
pub mod IncludePath
pub mod Covered
mod Tests
use arduino_cli_android.Prelude.{
  ℕ, zero, suc, Bool, true, false, not, ◌&&◌, ◌||◌, List, [], ◌∷◌, ◌++◌, Option, none, some, ◌==◌,
  nat_eq, list_eq, if◌then◌else◌, any, assign,
}
use arduino_cli_android.Strings.{Text, codes, is_empty}
use arduino_cli_android.SourceFile.{
  SourceFile, UpToDate, reuse, rebuild, error, obj_file_is_up_to_date, push,
}
use arduino_cli_android.Libraries.{Library}
use arduino_cli_android.Libraries.Location.{profile}
use arduino_cli_android.Libraries.Collection.{contains, remove, location_eq}
use arduino_cli_android.Resolver.{Headers, alternatives_for, resolve_for}
use arduino_cli_android.Cpp.DepFile.{Dependencies, Fallible, read_dep_file}
use arduino_cli_android.Detector.Outside.{World, Run, succeeded, exited, broken}
use arduino_cli_android.Detector.Cache.{
  DetectorCache, Entry, load, peek, expect_compile, expect_added_include_path,
  expect_missing_include_h,
}
use arduino_cli_android.Detector.Finder.{includes_finder_with_reg_exp}
use arduino_cli_android.Detector.Queue.{
  source_dirs, make_source_file, queue_source_files_from_folder, queue_source_dirs,
}

-- `SketchLibrariesDetector` with the queue: `headers` is the resolver's map, and the staged libraries
-- stand in the order of their staging (Go walks its map in no fixed order).
pub record Search : Type 0 where
  pub headers : Headers
  pub staged : List Library
  pub imported : List Library
  pub resolutions : List (Text × (Library × List Library))
  pub include_folders : List Text
  pub cache : DetectorCache
  pub queue : List SourceFile

-- The errors: of `ObjFileIsUpToDate`, of the preprocessor, of a cache that names a header that is not missing.
pub data SearchError : Type 0 where
  not_checked preprocessor_error internal_error_in_cache : SearchError
  source_file_error arch_folder missing_property two_layouts : SearchError

pub data Outcome : Type 0 where
  done : Search → Outcome
  failed : SearchError → Search → Outcome
  panicked : Outcome
  out_of_fuel : Outcome

unfoldable pub add_include_folder : Search → Text → Search
add_include_folder s folder = record s {
  include_folders = s.include_folders ++ (folder ∷ []);
  cache = expect_added_include_path s.cache folder;
}

unfoldable pub stage_library_for_inclusion : Search → Library → Search
stage_library_for_inclusion s lib = record s { staged = remove s.staged lib ++ (lib ∷ []) }

unfoldable pub last_of : List Library → List Library
last_of [] = []
last_of (x ∷ []) = x ∷ []
last_of (x ∷ y ∷ libs) = last_of (y ∷ libs)

-- `candidates.Remove(selected)` closes the gap inside the list that the resolver still holds: there
-- the libraries after it move up by one and the last one stays behind.
unfoldable pub closed_up : List Library → Library → List Library
closed_up candidates selected =
    if contains candidates selected
    then remove candidates selected ++ last_of candidates
    else candidates

unfoldable pub select : Search → Text → List Library → Library → Search
select s header candidates selected = record s {
  headers = assign header (closed_up candidates selected) s.headers;
  resolutions = assign header (selected, remove candidates selected) s.resolutions;
}

unfoldable pub mandatory_properties : List Text
mandatory_properties = codes "name" ∷ codes "version" ∷ codes "author" ∷ codes "maintainer" ∷ []

module _ (w : World) (libraries_build_path platform_arch : Text) where
  -- The outer `none` is a panic, the inner one the answer nil.
  unfoldable pub resolve_library : Search → Text → Option (Option Library × Search)
  resolve_library s header =
      let candidates = alternatives_for s.headers header in
      if is_empty candidates || any (contains s.imported) candidates
      then some (none, s)
      else elim (resolve_for w.closest w.sort_by_name s.headers header platform_arch) [
        | some (some selected) ↦ some (some selected, select s header candidates selected)
        | _ ↦ none
      ]

  unfoldable pub add_and_build_library : Search → Library → Search
  add_and_build_library s lib = record s {
    imported = s.imported ++ (lib ∷ []);
    queue =
        if lib.precompiled && lib.precompiled_with_sources
        then s.queue
        else queue_source_dirs w lib (w.join libraries_build_path lib.dir_name) (source_dirs lib)
            s.queue;
  }

  -- The first staged library whose folder holds the path, and the others.
  unfoldable pub commit_staged_library : List Library → Text → Option (Library × List Library)
  commit_staged_library [] path = none
  commit_staged_library (lib ∷ libs) path =
      let rest = commit_staged_library libs path in
      if w.is_inside_dir path lib.install_dir
      then some (lib, libs)
      else elim rest [ none ↦ none | some (found, others) ↦ some (found, lib ∷ others) ]

  -- The loop over the dependencies of a file that lacks no header.
  unfoldable pub commit_dependencies : Search → List Text → Search
  commit_dependencies s [] = s
  commit_dependencies s (dep ∷ deps) = elim (commit_staged_library s.staged dep) [
    | none ↦ commit_dependencies s deps
    | some (lib, others) ↦
        commit_dependencies (add_and_build_library (record s { staged = others }) lib) deps
  ]

  unfoldable pub commit_read : Search → Option Text → Search
  commit_read s none = s
  commit_read s (some text) = elim (read_dep_file text) [
    | Fallible.failed e ↦ s
    | Fallible.done deps ↦ commit_dependencies s deps.dependencies
  ]

  unfoldable pub folders_for : Search → SourceFile → List Text
  folders_for s source_file = elim source_file.extra_include_path [
    | none ↦ s.include_folders
    | some extra ↦ s.include_folders ++ (extra ∷ [])
  ]

  -- The header named by the cache, for a file that has not changed.
  unfoldable pub cached_answer : Bool → Option Entry → Option Text
  cached_answer unchanged none = none
  cached_answer unchanged (some entry) = if unchanged then entry.missing_include_h else none

  -- How the search for a missing header in one file ends.
  pub data Missing : Type 0 where
    from_cache from_run : Text → Missing
    stopped : Missing
    finder_panicked : Missing

  unfoldable pub missing_of_run : Run → Missing
  missing_of_run succeeded = from_run []
  missing_of_run broken = stopped
  missing_of_run (exited stderr) =
      if is_empty stderr then stopped else elim (includes_finder_with_reg_exp stderr) [
        | none ↦ finder_panicked
        | some h ↦ from_run h
      ]

  unfoldable pub find_missing : Bool → Search → SourceFile → List Text → Missing
  find_missing unchanged s source_file folders = elim (cached_answer unchanged (peek s.cache)) [
    | some h ↦ from_cache h
    | none ↦ missing_of_run (w.run source_file folders)
  ]

  -- The error where no library was found: a header from the cache is looked for once more.
  unfoldable pub unresolved_error : Missing → Run → SearchError
  unresolved_error (from_cache h) succeeded = internal_error_in_cache
  unresolved_error _ _ = preprocessor_error

  unfoldable pub expect_task : Search → SourceFile → Search
  expect_task s source_file = record s {
    cache = expect_compile s.cache source_file (w.task source_file (folders_for s source_file));
  }

  unfoldable pub expect_missing : Search → Text → Search
  expect_missing s h = record s { cache = expect_missing_include_h s.cache h }

  -- One round of the loop: the search for a header, then the library that provides it.
  pub data Round : Type 0 where
    ended : Outcome → Round
    again : Search → Round

  unfoldable pub add_library : Search → Library → Search
  add_library s lib = add_include_folder (add_and_build_library s lib) lib.source_dir

  unfoldable pub resolve_missing : Search → SourceFile → List Text → Missing → Text → Round
  resolve_missing s source_file folders m h = elim (resolve_library s h) [
    | none ↦ ended panicked
    | some (none, s') ↦ ended (failed (unresolved_error m (w.run source_file folders)) s')
    | some (some lib, s') ↦ again (add_library s' lib)
  ]

  unfoldable pub handle_missing : Search → SourceFile → List Text → Missing → Text → Round
  handle_missing s source_file folders m h =
      if is_empty h
      then ended (done (commit_read s (w.dep_text source_file folders)))
      else resolve_missing s source_file folders m h

  unfoldable pub handle : Search → SourceFile → List Text → Missing → Round
  handle s source_file folders stopped = ended (failed preprocessor_error s)
  handle s source_file folders finder_panicked = ended panicked
  handle s source_file folders (from_cache h) =
      handle_missing (expect_missing s h) source_file folders (from_cache h) h
  handle s source_file folders (from_run h) =
      handle_missing (expect_missing s h) source_file folders (from_run h) h

  unfoldable pub round : Bool → Search → SourceFile → Round
  round unchanged s source_file =
      let s' = expect_task s source_file in
      let folders = folders_for s source_file in
      handle s' source_file folders (find_missing unchanged s' source_file folders)

  unfoldable pub rounds : ℕ → Bool → Search → SourceFile → Outcome
  rounds zero unchanged s source_file = out_of_fuel
  rounds (suc fuel) unchanged s source_file = elim (round unchanged s source_file) [
    | ended outcome ↦ outcome
    | again s' ↦ rounds fuel unchanged s' source_file
  ]

  -- `findMissingIncludesInCompilationUnit`, for the file that was taken from the queue.
  unfoldable pub find_missing_includes : ℕ → Search → SourceFile → Outcome
  find_missing_includes fuel s source_file =
      elim (obj_file_is_up_to_date w.clean w.stat w.read_file source_file) [
        | error ↦ failed not_checked s
        | reuse ↦ rounds fuel true s source_file
        | rebuild ↦ rounds fuel false s source_file
      ]

  -- The loop over the queue. Each file may take `inner` rounds.
  unfoldable pub process_queue : ℕ → ℕ → Search → Outcome
  process_queue inner zero s = out_of_fuel
  process_queue inner (suc fuel) s = elim s.queue [
    | [] ↦ done s
    | source_file ∷ queue ↦
        elim (find_missing_includes inner (record s { queue = queue }) source_file) [
          | done s' ↦ process_queue inner fuel s'
          | failed e s' ↦ failed e s'
          | panicked ↦ panicked
          | out_of_fuel ↦ out_of_fuel
        ]
  ]
