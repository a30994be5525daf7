-- ===== src/SourceFile.antt =====
-- internal/arduino/builder/internal/detector/source_file.go: the source files whose includes are searched,
-- their queue, and whether an object file is still good.
pub mod Laws
mod Tests
use arduino_cli_android.Prelude.{
  ℕ, Bool, true, false, not, ◌&&◌, ◌||◌, List, [], ◌∷◌, ◌++◌, Option, none, some, ◌==◌, nat_eq,
  list_eq, if◌then◌else◌, ltb, any,
}
use arduino_cli_android.Strings.{Text, is_empty}
use arduino_cli_android.Cpp.DepFile.{Dependencies, Fallible, failed, done, read_dep_file}

-- Paths are texts; the pointers that may be nil are options.
pub record SourceFile : Type 0 where
  pub source_path : Text
  pub depfile_path : Option Text
  pub extra_include_path : Option Text

-- `EqualsTo` of the package `go-paths-helper`, which a nil receiver passes on to as well.
module _ (equals_to : Option Text → Option Text → Bool) where
  unfoldable pub same_extra : Option Text → Option Text → Bool
  same_extra none none = true
  same_extra (some f) (some g) = equals_to (some f) (some g)
  same_extra _ _ = false

  unfoldable pub equals : SourceFile → SourceFile → Bool
  equals f g =
      equals_to (some f.source_path) (some g.source_path)
      && (equals_to f.depfile_path g.depfile_path
          && same_extra f.extra_include_path g.extra_include_path)

  unfoldable pub contains : List SourceFile → SourceFile → Bool
  contains queue target = any (λ x. equals target x) queue

  unfoldable pub push : List SourceFile → SourceFile → List SourceFile
  push queue value = if not (contains queue value) then queue ++ (value ∷ []) else queue

-- `none` is the panic on an empty queue.
unfoldable pub pop : List SourceFile → Option (SourceFile × List SourceFile)
pop [] = none
pop (x ∷ queue) = some (x, queue)

-- What the file system says of a path: the time of the last change, no such file, or another error.
pub data Stat : Type 0 where
  found : ℕ → Stat
  missing unreadable : Stat

-- `(true, nil)`, `(false, nil)` and `(false, err)`.
pub data UpToDate : Type 0 where
  reuse rebuild error : UpToDate

-- `clean` is that of `go-paths-helper`; `stat` and `read_file` are the file system, at one moment.
module _ (clean : Text → Text) (stat : Text → Stat) (read_file : Text → Option Text) where
  -- The loop over the other dependencies.
  unfoldable pub check_deps : ℕ → List Text → UpToDate
  check_deps depfile_time [] = reuse
  check_deps depfile_time (dep ∷ deps) =
      let rest = check_deps depfile_time deps in
      elim (stat dep) [
        | missing ↦ rebuild
        | unreadable ↦ rebuild
        | found dep_time ↦ if ltb depfile_time dep_time then rebuild else rest
      ]

  unfoldable pub check_source : Text → ℕ → List Text → UpToDate
  check_source source depfile_time [] = reuse
  check_source source depfile_time (first ∷ deps) =
      if not (first == source) then rebuild else check_deps depfile_time deps

  -- `cpp.ReadDepFile`, where the file is in UTF-8.
  unfoldable pub check_read : Text → ℕ → Option Text → UpToDate
  check_read source depfile_time none = error
  check_read source depfile_time (some text) = elim (read_dep_file text) [
    | failed e ↦ error
    | done deps ↦ check_source source depfile_time deps.dependencies
  ]

  unfoldable pub check_depfile : Text → ℕ → Text → Stat → UpToDate
  check_depfile source source_time depfile missing = rebuild
  check_depfile source source_time depfile unreadable = error
  check_depfile source source_time depfile (found depfile_time) =
      if ltb depfile_time source_time
      then rebuild
      else check_read source depfile_time (read_file depfile)

  unfoldable pub check_stat : Text → Text → Stat → UpToDate
  check_stat source depfile missing = error
  check_stat source depfile unreadable = error
  check_stat source depfile (found source_time) =
      check_depfile source source_time depfile (stat depfile)

  unfoldable pub check_paths : Text → Option Text → UpToDate
  check_paths source none = rebuild
  check_paths source (some depfile) =
      check_stat (clean source) (clean depfile) (stat (clean source))

  unfoldable pub obj_file_is_up_to_date : SourceFile → UpToDate
  obj_file_is_up_to_date f = check_paths f.source_path f.depfile_path
