-- ===== src/Detector/Tests.antt =====
-- A sketch that includes one library, which has one source file.
use arduino_cli_android.Prelude.{
  ◌<◌, true, false, List, [], ◌∷◌, ◌++◌, map, none, some, ◌≡◌, ◌≢◌, refl, arith, list_beq, ◌==◌,
  list_eq, nat_eq, if◌then◌else◌, lookup, assign, member,
}
use arduino_cli_android.Strings.{Text, codes, has_suffix}
use arduino_cli_android.SourceFile.{SourceFile, Stat, missing, found}
use arduino_cli_android.Libraries.{Library}
use arduino_cli_android.Libraries.Location.{user}
use arduino_cli_android.Resolver.{new_cpp_resolver}
use arduino_cli_android.Detector.{Outcome, done, out_of_fuel}
use arduino_cli_android.Detector.Outside.{World, exited, succeeded}
use arduino_cli_android.Detector.Cache.{
  Entry, entry_string, save, load, expect_all, save-expect_all,
}
use arduino_cli_android.Detector.Finder.{includes_finder_with_reg_exp}
use arduino_cli_android.Detector.Start.{Request, find_includes}
use arduino_cli_android.Detector.{
  add_and_build_library, add_include_folder, add_library, cached_answer, commit_read,
  expect_missing, expect_task, find_missing, find_missing_includes, folders_for, handle,
  handle_missing, mandatory_properties, missing_of_run, process_queue, resolve_library,
  resolve_missing, round, rounds, select,
}
use arduino_cli_android.Detector.Cache.{
  expect, expect_added_include_path, expect_compile, expect_missing_include_h, peek,
}
use arduino_cli_android.Detector.Finder.{
  after_literal, after_one_of, before_last_sign, capture, find_from, is_blank, is_margin,
  match_here, skip_while,
}
use arduino_cli_android.Detector.Queue.{
  find_files_in_folder, make_source_file, push_files, queue_source_dirs,
  queue_source_files_from_folder, relative, source_dirs,
}
use arduino_cli_android.Detector.Start.{
  check_imported, drop_error, fail_if_imported_library_is_wrong, find_includes_in, first_folders,
  lacks_property, new_search, prepare, queue_sketch, search_libraries, stage_profile_libraries,
}
use arduino_cli_android.Libraries.Collection.{add}
use arduino_cli_android.Resolver.{
  add_headers, add_if_read, alternatives_for, best_libraries, compute_priority, is_ide_builtin,
  is_of_platform, is_user_or_unmanaged, location_bonus, pick, resolve_for, same_pointer,
  scan_ide_builtin_libraries, scan_library, scan_platform_libraries,
  scan_user_and_unmanaged_libraries, scan_where,
}
use arduino_cli_android.SourceFile.{
  check_depfile, check_paths, check_stat, obj_file_is_up_to_date, push,
}
use arduino_cli_android.Strings.Split.{trim_space}
use arduino_cli_android.Detector.IncludePath.{EndsCovered}
use arduino_cli_android.Detector.Covered.{find_includes-IsCovered}
use arduino_cli_android.Detector.Termination.{work_at_start, find_includes-ends}

abbrev added : Text → Entry
added path = record {
  added_include_path = some path;
  compile = none;
  compile_task = none;
  missing_include_h = none;
}

abbrev lacking : Text → Entry
lacking h = record {
  added_include_path = none;
  compile = none;
  compile_task = none;
  missing_include_h = some h;
}

abbrev last_build : List Entry
last_build = added (codes "core") ∷ lacking (codes "Servo.h") ∷ []

abbrev this_build : List Entry
this_build = added (codes "core") ∷ lacking (codes "Wire.h") ∷ lacking [] ∷ []

save-expect_all_example :
    map entry_string (save (expect_all (load last_build) this_build)) ≡ map entry_string this_build
save-expect_all_example = save-expect_all last_build this_build

abbrev gcc_message : Text
gcc_message =
    codes "sketch.cpp:1:10: fatal error: Servo.h: No such file or directory\n #include <Servo.h>\n"

abbrev servo : Library
servo = record {
  address = 1;
  name = codes "Servo";
  install_dir = codes "libs/Servo";
  source_dir = codes "libs/Servo/src";
  utility_dir = none;
  is_recursive = false;
  precompiled = false;
  precompiled_with_sources = false;
  is_legacy = false;
  dir_name = codes "Servo";
  architectures = [];
  location = user;
  container_platform = none;
  version = some 1;
  source_headers = some (codes "Servo.h" ∷ []);
}

abbrev first_word : List Text → Text → Text
first_word [] name = []
first_word (word ∷ words) name = word

-- The sketch lacks the header until the folder of the library is searched as well.
abbrev desk : World
desk = record {
  clean = λ p. p;
  is_abs = λ p. false;
  base = λ p. p;
  join = λ d p. d ++ (codes "/" ++ p);
  rel_to = λ d p. some p;
  is_inside_dir = λ p d. false;
  equals_to = λ p q. elim p [ none ↦ false | some a ↦ elim q [ none ↦ false | some b ↦ a == b ] ];
  is_dir = λ p. false;
  read_dir =
      λ d test. if d == codes "libs/Servo/src" then some (codes "Servo.cpp" ∷ []) else some [];
  read_dir_recursive = λ d test test'. none;
  stat = λ p. if has_suffix (codes ".d") p then missing else found 1;
  read_file = λ p. none;
  task = λ f folders. codes "gcc";
  run = λ f folders.
      if member (codes "libs/Servo/src") folders then succeeded else exited gcc_message;
  dep_text = λ f folders. none;
  has_property = λ lib name. true;
  closest = first_word;
  sort_by_name = λ libs. libs;
}

abbrev wanted : Request
wanted = record {
  build_core_path = codes "core";
  build_variant_path = none;
  sketch_build_path = codes "sketch";
  main_file_base = codes "a.ino";
  libraries_build_path = codes "build";
  platform_arch = codes "avr";
  all_installed = servo ∷ [];
  cache_entries = [];
  cached_include_folders = none;
  use_cached_libraries_resolution = false;
  only_update_compilation_database = false;
}

abbrev folders_of : Outcome → List Text
folders_of (done s) = s.include_folders
folders_of _ = []

found_servo :
    folders_of (find_includes desk wanted 2 9 (new_cpp_resolver (servo ∷ []) none none))
    ≡ codes "core" ∷ codes "libs/Servo/src" ∷ []
unfolding add_include_folder select mandatory_properties resolve_library add_and_build_library
    commit_read folders_for cached_answer missing_of_run find_missing expect_task expect_missing
    add_library resolve_missing handle_missing handle round rounds find_missing_includes
    process_queue new_search stage_profile_libraries lacks_property
    fail_if_imported_library_is_wrong first_folders queue_sketch prepare check_imported
    search_libraries find_includes_in drop_error find_includes source_dirs find_files_in_folder
    relative make_source_file push_files queue_source_files_from_folder queue_source_dirs load peek
    expect expect_compile expect_added_include_path expect_missing_include_h is_blank is_margin
    skip_while after_literal after_one_of before_last_sign capture match_here find_from
    includes_finder_with_reg_exp alternatives_for add_headers add_if_read scan_library scan_where
    is_ide_builtin is_user_or_unmanaged same_pointer is_of_platform scan_ide_builtin_libraries
    scan_user_and_unmanaged_libraries scan_platform_libraries new_cpp_resolver location_bonus
    compute_priority best_libraries pick resolve_for
    arduino_cli_android.Libraries.Collection.contains add arduino_cli_android.SourceFile.contains
    push check_depfile check_stat check_paths obj_file_is_up_to_date has_suffix trim_space list_beq
    lookup assign
found_servo = refl

small : work_at_start desk wanted (servo ∷ []) (new_cpp_resolver (servo ∷ []) none none) < 9
unfolding make_source_file relative prepare stage_profile_libraries queue_sketch
    queue_source_files_from_folder find_files_in_folder list_beq push_files push
    arduino_cli_android.SourceFile.contains first_folders add_include_folder new_search
    arduino_cli_android.Libraries.Collection.contains source_dirs
small = omega arith

find_includes-ends_example :
    find_includes desk wanted 2 9 (new_cpp_resolver (servo ∷ []) none none) ≢ out_of_fuel
find_includes-ends_example =
    find_includes-ends desk wanted (λ libs lib. (λ h. h, λ h. h)) (servo ∷ []) none none 2 9
      (omega arith) small

find_includes-IsCovered_example :
    EndsCovered (find_includes desk wanted 2 9 (new_cpp_resolver (servo ∷ []) none none))
find_includes-IsCovered_example =
    find_includes-IsCovered desk wanted 2 9 (new_cpp_resolver (servo ∷ []) none none)
