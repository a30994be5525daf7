-- ===== src/Detector/Termination.antt =====
-- The search for libraries comes to an end.
use arduino_cli_android.Prelude.{
  ℕ, ◌<◌, Bool, true, false, List, [], ◌∷◌, ◌++◌, Option, none, some, length, ◌≡◌, ◌≢◌, ◌↔◌, refl,
  ◌==◌, inl, inr, Elem, Bool-cases, Option-cases, if◌then◌else◌,
}
use arduino_cli_android.Strings.{codes}
use arduino_cli_android.SourceFile.{SourceFile}
use arduino_cli_android.Libraries.{Library}
use arduino_cli_android.Libraries.Location.{profile}
use arduino_cli_android.Libraries.Collection.{location_eq}
use arduino_cli_android.Resolver.{Headers, new_cpp_resolver}
use arduino_cli_android.Resolver.Scan.{Elem-new_cpp_resolver}
use arduino_cli_android.Resolver.Places.{scanned-not_profile}
use arduino_cli_android.Detector.{
  Search, Outcome, done, failed, panicked, out_of_fuel, process_queue, add_include_folder,
  stage_library_for_inclusion,
}
use arduino_cli_android.Detector.Outside.{World}
use arduino_cli_android.Detector.Queue.{make_source_file}
use arduino_cli_android.Detector.Start.{
  Request, new_search, stage_profile_libraries, fail_if_imported_library_is_wrong, first_folders,
  prepare, check_imported, search_libraries, cached_folders, find_includes_in, drop_error,
  find_includes,
}
use arduino_cli_android.Detector.Rounds.{AreKnownIn, work_left}
use arduino_cli_android.Detector.Loops.{process_queue-ends}

headers-stage_profile_libraries :
    (libs : List Library) (s : Search) → (stage_profile_libraries libs s).headers ≡ s.headers
unfolding stage_profile_libraries add_include_folder stage_library_for_inclusion
headers-stage_profile_libraries [] s = refl
headers-stage_profile_libraries (lib ∷ libs) s = elim (Bool-cases (lib.location == profile)) [
  | inl e ↦
      rw (e, stage_profile_libraries)
        (headers-stage_profile_libraries libs
          (add_include_folder (stage_library_for_inclusion s lib) lib.source_dir))
  | inr e ↦ rw (e, stage_profile_libraries) (headers-stage_profile_libraries libs s)
]

either-ends :
    (b : Bool) (o o' : Outcome)
    → o ≢ out_of_fuel
    → o' ≢ out_of_fuel
    → (if b then o else o') ≢ out_of_fuel
either-ends true o o' h h' = h
either-ends false o o' h h' = h'

module _ (w : World) (r : Request) where
  headers-prepare : (s : Search) (f : SourceFile) → (prepare w r s f).headers ≡ s.headers
  unfolding prepare first_folders add_include_folder
  headers-prepare s f = elim (Option-cases r.build_variant_path) [
    | inl e ↦ rw e (headers-stage_profile_libraries (w.sort_by_name r.all_installed) _)
    | inr (path, e) ↦ rw e (headers-stage_profile_libraries (w.sort_by_name r.all_installed) _)
  ]

  check_imported-ends : (o : Outcome) → o ≢ out_of_fuel → check_imported w r o ≢ out_of_fuel
  unfolding check_imported
  check_imported-ends (done s) h =
      elim (Option-cases (fail_if_imported_library_is_wrong w s.imported)) [
        | inl e ↦ rw (e, check_imported) (λ q. cc)
        | inr (err, e) ↦ rw (e, check_imported) (λ q. cc)
      ]
  check_imported-ends (failed e s) h = h
  check_imported-ends panicked h = h
  check_imported-ends out_of_fuel h = h

  drop_error-ends : (o : Outcome) → o ≢ out_of_fuel → drop_error w r o ≢ out_of_fuel
  unfolding drop_error
  drop_error-ends (done s) h = h
  drop_error-ends (failed e s) h = elim (Bool-cases r.only_update_compilation_database) [
    | inl e ↦ rw e (λ q. cc)
    | inr e ↦ rw e (λ q. cc)
  ]
  drop_error-ends panicked h = h
  drop_error-ends out_of_fuel h = h

  abbrev pub merged_sketch_of : Option SourceFile
  merged_sketch_of =
      make_source_file w r.sketch_build_path r.sketch_build_path
        (r.main_file_base ++ codes ".cpp.merged") none

  abbrev pub work_of : List Library → Headers → Option SourceFile → ℕ
  work_of libs headers none = 0
  work_of libs headers (some f) =
      work_left w libs (prepare w r (new_search headers r.cache_entries) f)

  -- The files queued at the start, and all that the libraries and the staged libraries can add.
  abbrev pub work_at_start : List Library → Headers → ℕ
  work_at_start libs headers = work_of libs headers merged_sketch_of

  module _
      (sort_keeps : (libs : List Library) (lib : Library)
        → Elem lib (w.sort_by_name libs) ↔ Elem lib libs) where
    AreKnown-new_cpp_resolver :
        (libs : List Library) (target actual : Option ℕ)
        → AreKnownIn libs (new_cpp_resolver libs target actual)
    AreKnown-new_cpp_resolver libs target actual header lib m =
        let (known, scanned, offers) = (Elem-new_cpp_resolver libs target actual header lib).0 m in
        (known, scanned-not_profile target actual lib scanned)

    search_libraries-ends :
        (libs : List Library) (inner fuel : ℕ) (headers : Headers)
        → AreKnownIn libs headers
        → length libs < inner
        → work_at_start libs headers < fuel
        → search_libraries w r inner fuel (new_search headers r.cache_entries) ≢ out_of_fuel
    unfolding search_libraries new_search
    search_libraries-ends libs inner fuel headers k lt lt' =
        let s = new_search headers r.cache_entries in
        elim (Option-cases merged_sketch_of) [
          | inl e ↦ rw (e, search_libraries) (λ q. cc)
          | inr (f, e) ↦
              let start = prepare w r s f in
              let search =
                process_queue w r.libraries_build_path r.platform_arch inner fuel start in
              rw (e, search_libraries)
                (check_imported-ends
                  (if r.use_cached_libraries_resolution then done (first_folders w r s) else search)
                  (either-ends r.use_cached_libraries_resolution (done (first_folders w r s)) search
                    (λ q. cc)
                    (process_queue-ends w r.libraries_build_path r.platform_arch libs sort_keeps
                      inner fuel start (rw (headers-prepare s f) k) lt (rw e at lt'))))
        ]

    -- The search for the libraries of a sketch comes to an end, whatever the files, the preprocessor and the caches
    -- are: it needs at most one round more for a file than there are libraries, and takes at most as many files from
    -- the queue as the sketch, the libraries and the staged libraries have. The sort keeps the libraries of its argument.
    pub find_includes-ends :
        (libs : List Library) (target actual : Option ℕ) (inner fuel : ℕ)
        → length libs < inner
        → work_at_start libs (new_cpp_resolver libs target actual) < fuel
        → find_includes w r inner fuel (new_cpp_resolver libs target actual) ≢ out_of_fuel
    unfolding find_includes find_includes_in
    find_includes-ends libs target actual inner fuel lt lt' =
        let headers = new_cpp_resolver libs target actual in
        elim (Option-cases
          (cached_folders w r r.use_cached_libraries_resolution r.cached_include_folders)) [
            | inl e ↦
                rw (e, find_includes_in)
                  (drop_error-ends
                    (search_libraries w r inner fuel (new_search headers r.cache_entries))
                    (search_libraries-ends libs inner fuel headers
                      (AreKnown-new_cpp_resolver libs target actual) lt lt'))
            | inr (folders, e) ↦
                rw (e, find_includes_in)
                  (drop_error-ends
                    (done (record (new_search headers []) { include_folders = folders })) (λ q. cc))
          ]
