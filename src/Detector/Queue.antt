-- ===== src/Detector/Queue.antt =====
-- The source files that a folder brings into the queue (`queueSourceFilesFromFolder` and
-- `makeSourceFile` of detector.go, `FindFilesInFolder` of builder/internal/utils/utils.go).
use arduino_cli_android.Prelude.{
  Bool, false, not, ◌&&◌, List, [], ◌∷◌, ◌++◌, Option, none, some, nat_eq, list_eq, if◌then◌else◌,
  any, member,
}
use arduino_cli_android.Strings.{Text, codes, has_prefix, has_suffix, is_empty}
use arduino_cli_android.SourceFile.{SourceFile, push}
use arduino_cli_android.Libraries.{Library}
use arduino_cli_android.Detector.Outside.{World}

abbrev pub source_control_folders : List Text
source_control_folders =
    codes "CVS"
    ∷ codes "RCS"
    ∷ codes ".git"
    ∷ codes ".github"
    ∷ codes ".svn"
    ∷ codes ".hg"
    ∷ codes ".bzr"
    ∷ codes ".vscode"
    ∷ codes ".settings"
    ∷ codes ".pioenvs"
    ∷ codes ".piolibdeps"
    ∷ []

-- The keys of `SourceFilesValidExtensions`.
abbrev pub source_files_valid_extensions : List Text
source_files_valid_extensions =
    codes ".c" ∷ codes ".cpp" ∷ codes ".cxx" ∷ codes ".cc" ∷ codes ".S" ∷ []

-- `SourceDirs` of a library: each folder with whether it is read with its subfolders.
unfoldable pub source_dirs : Library → List (Text × Bool)
source_dirs lib =
    (lib.source_dir, lib.is_recursive)
    ∷ elim lib.utility_dir [ none ↦ [] | some dir ↦ (dir, false) ∷ [] ]

module _ (w : World) where
  unfoldable pub filter_out_hidden_files : Text → Bool
  filter_out_hidden_files file = not (has_prefix (codes ".") (w.base file))

  unfoldable pub filter_out_sccs : Text → Bool
  filter_out_sccs file = not (member (w.base file) source_control_folders)

  unfoldable pub file_filter : List Text → List Text → Text → Bool
  file_filter exclude_file_names extensions file =
      let kept =
        filter_out_hidden_files file
        && (filter_out_sccs file
            && (not (w.is_dir file) && not (member (w.base file) exclude_file_names))) in
      if is_empty extensions then kept else any (λ e. has_suffix e file) extensions && kept

  unfoldable pub find_files_in_folder : Text → Bool → List Text → List Text → Option (List Text)
  find_files_in_folder dir recurse exclude_file_names extensions =
      if recurse
      then w.read_dir_recursive dir (λ d. filter_out_hidden_files d && filter_out_sccs d)
          (file_filter exclude_file_names extensions)
      else w.read_dir dir (file_filter exclude_file_names extensions)

  -- The path below the root; `none` is the error of `RelTo`.
  unfoldable pub relative : Text → Text → Option Text
  relative source_root path = if w.is_abs path then w.rel_to source_root path else some path

  unfoldable pub make_source_file : Text → Text → Text → Option Text → Option SourceFile
  make_source_file source_root build_root source_file_path extra_include_path =
      elim (relative source_root source_file_path) [
        | none ↦ none
        | some path ↦ some (record {
          source_path = w.join source_root path;
          depfile_path = some (w.join build_root (path ++ codes ".libsdetect.d"));
          extra_include_path = extra_include_path;
        })
      ]

  -- The loop over the files found, up to the first error; what was queued before it stays.
  unfoldable pub push_files :
      Text → Text → Option Text → List Text → List SourceFile → List SourceFile
  push_files source_dir build_dir extra [] queue = queue
  push_files source_dir build_dir extra (path ∷ file_paths) queue =
      elim (make_source_file source_dir build_dir path extra) [
        | none ↦ queue
        | some source_file ↦
            push_files source_dir build_dir extra file_paths (push w.equals_to queue source_file)
      ]

  -- The callers drop the error.
  unfoldable pub queue_source_files_from_folder :
      Text → Bool → Text → Text → List Text → Option Text → List SourceFile → List SourceFile
  queue_source_files_from_folder folder recurse source_dir build_dir exclude_file_names extra
        queue =
      elim (find_files_in_folder folder recurse exclude_file_names source_files_valid_extensions) [
        | none ↦ queue
        | some file_paths ↦ push_files source_dir build_dir extra file_paths queue
      ]

  -- The loop over the source folders of a library.
  unfoldable pub queue_source_dirs :
      Library → Text → List (Text × Bool) → List SourceFile → List SourceFile
  queue_source_dirs lib build_dir [] queue = queue
  queue_source_dirs lib build_dir ((dir, recurse) ∷ dirs) queue =
      queue_source_dirs lib build_dir dirs (
        queue_source_files_from_folder dir recurse lib.source_dir build_dir [] lib.utility_dir
          queue)
