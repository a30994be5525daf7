-- ===== src/SourceFile/Tests.antt =====
-- A source with one include, older than its dependency file.
use arduino_cli_android.Prelude.{
  Bool, true, false, Option, none, some, ◌==◌, list_eq, nat_eq, if◌then◌else◌, ◌≡◌, refl, list_beq,
}
use arduino_cli_android.Strings.{
  Text, codes, is_space, trim_space, trim_left, trim_right, has_suffix, trim_suffix, has_prefix,
}
use arduino_cli_android.Cpp.DepFile.{
  read_dep_file, unescape_and_split, scan, step, step_pending, step_plain, write, finish,
  drop_empty, from_rows,
}
use arduino_cli_android.SourceFile.{
  SourceFile, Stat, found, missing, reuse, obj_file_is_up_to_date, check_paths, check_stat,
  check_depfile, check_read, check_source, check_deps,
}
use arduino_cli_android.SourceFile.Laws.{IsFresh, obj_file_is_up_to_date-IsFresh}

abbrev same_path : Option Text → Option Text → Bool
same_path none none = true
same_path (some a) (some b) = a == b
same_path _ _ = false

abbrev sketch : SourceFile
sketch = record {
  source_path = codes "a.cpp";
  depfile_path = some (codes "a.d");
  extra_include_path = none;
}

abbrev clean : Text → Text
clean path = path

abbrev stat : Text → Stat
stat path =
    if path == codes "a.d" then found 9 else if path == codes "b.h" then missing else found 6

abbrev read_file : Text → Option Text
read_file path = some (codes "a.o: a.cpp a.h")

up_to_date : obj_file_is_up_to_date clean stat read_file sketch ≡ reuse
unfolding obj_file_is_up_to_date check_paths check_stat list_beq check_depfile check_read
    read_dep_file unescape_and_split scan step step_pending step_plain is_space write finish
    from_rows drop_empty trim_space trim_left trim_right has_suffix has_prefix trim_suffix
    check_source check_deps
up_to_date = refl

obj_file_is_up_to_date-IsFresh_example :
    IsFresh clean stat read_file (codes "a.cpp") (some (codes "a.d"))
obj_file_is_up_to_date-IsFresh_example =
    obj_file_is_up_to_date-IsFresh clean stat read_file sketch up_to_date
