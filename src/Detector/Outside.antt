-- ===== src/Detector/Outside.antt =====
-- What the search for libraries asks of the outside: the file system, the preprocessor and packages.
use arduino_cli_android.Prelude.{Bool, List, Option}
use arduino_cli_android.Strings.{Text}
use arduino_cli_android.SourceFile.{SourceFile, Stat}
use arduino_cli_android.Libraries.{Library}

-- How a task ended: without an error, with an `ExitError` and what it wrote to its standard error,
-- or with another error.
pub data Run : Type 0 where
  succeeded : Run
  exited : Text → Run
  broken : Run

-- `clean` to `read_dir_recursive` are methods of `go-paths-helper`: `is_inside_dir p d` is
-- `New(p).IsInsideDir(d)`; `read_dir dir filter` and `read_dir_recursive dir dir_filter filter` give
-- none for an error. `stat` and `read_file` are the file system at one moment. `task` is the command
-- line of the task that `preprocessor.GCC` makes of a source file and the include folders, `run` how
-- that task ends, and `dep_text` the dependency file after it. The pre-runner runs the same tasks, so
-- its results are those of `run`. `closest` and `sort_by_name` are those of the resolver.
pub record World : Type 0 where
  pub clean : Text → Text
  pub is_abs : Text → Bool
  pub base : Text → Text
  pub join : Text → Text → Text
  pub rel_to : Text → Text → Option Text
  pub is_inside_dir : Text → Text → Bool
  pub equals_to : Option Text → Option Text → Bool
  pub is_dir : Text → Bool
  pub read_dir : Text → (Text → Bool) → Option (List Text)
  pub read_dir_recursive : Text → (Text → Bool) → (Text → Bool) → Option (List Text)
  pub stat : Text → Stat
  pub read_file : Text → Option Text
  pub task : SourceFile → List Text → Text
  pub run : SourceFile → List Text → Run
  pub dep_text : SourceFile → List Text → Option Text
  pub has_property : Library → Text → Bool
  pub closest : List Text → Text → Text
  pub sort_by_name : List Library → List Library
