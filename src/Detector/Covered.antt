-- ===== src/Detector/Covered.antt =====
-- The rounds and the whole search keep the folders of the imported libraries on the include path.
use arduino_cli_android.Prelude.{
  ℕ, zero, suc, Bool, true, false, List, [], ◌∷◌, ◌++◌, none, some, nat_eq, list_eq, if◌then◌else◌,
  inl, inr, Bool-cases, Option-cases,
}
use arduino_cli_android.Strings.{Text, codes, is_empty}
use arduino_cli_android.SourceFile.{SourceFile, obj_file_is_up_to_date}
use arduino_cli_android.Libraries.Collection.{location_eq}
use arduino_cli_android.Resolver.{Headers}
use arduino_cli_android.Detector.{
  Search, Outcome, done, failed, panicked, out_of_fuel, Round, ended, again, Missing, from_cache,
  from_run, stopped, finder_panicked, add_include_folder, resolve_library, expect_task,
  expect_missing, folders_for, find_missing, resolve_missing, handle_missing, handle, round, rounds,
  find_missing_includes, process_queue,
}
use arduino_cli_android.Detector.Outside.{World}
use arduino_cli_android.Detector.Queue.{make_source_file}
use arduino_cli_android.Detector.Loops.{UpToDate-cases}
use arduino_cli_android.Detector.Start.{
  Request, new_search, fail_if_imported_library_is_wrong, first_folders, prepare, check_imported,
  search_libraries, cached_folders, find_includes_in, drop_error, find_includes,
}
use arduino_cli_android.Detector.IncludePath.{
  IsCovered, EndsCovered, IsCovered-add_include_folder, IsCovered-stage_profile_libraries,
  IsCovered-commit_read, IsCovered-add_library, ResolvesCovered-resolve_library, RoundCovered,
}

module _ (w : World) (libraries_build_path arch : Text) where
  RoundCovered-resolve_missing :
      (s : Search) (f : SourceFile) (folders : List Text) (m : Missing w libraries_build_path arch)
      (header : Text)
      → IsCovered s
      → RoundCovered w libraries_build_path arch
          (resolve_missing w libraries_build_path arch s f folders m header)
  unfolding resolve_missing
  RoundCovered-resolve_missing s f folders m header h =
      let covered = ResolvesCovered-resolve_library w libraries_build_path arch s header h in
      elim (Option-cases (resolve_library w libraries_build_path arch s header)) [
        | inl e ↦ rw (e, resolve_missing) tt
        | inr ((none, s'), e) ↦ rw (e, resolve_missing) (rw e at covered)
        | inr ((some lib, s'), e) ↦
            rw (e, resolve_missing)
              (IsCovered-add_library w libraries_build_path arch s' lib (rw e at covered))
      ]

  RoundCovered-handle_missing :
      (s : Search) (f : SourceFile) (folders : List Text) (m : Missing w libraries_build_path arch)
      (header : Text)
      → IsCovered s
      → RoundCovered w libraries_build_path arch
          (handle_missing w libraries_build_path arch s f folders m header)
  unfolding handle_missing
  RoundCovered-handle_missing s f folders m header h = elim (Bool-cases (is_empty header)) [
    | inl e ↦ rw e (IsCovered-commit_read w libraries_build_path arch s (w.dep_text f folders) h)
    | inr e ↦ rw e (RoundCovered-resolve_missing s f folders m header h)
  ]

  RoundCovered-handle :
      (s : Search) (f : SourceFile) (folders : List Text) (m : Missing w libraries_build_path arch)
      → IsCovered s
      → RoundCovered w libraries_build_path arch (handle w libraries_build_path arch s f folders m)
  unfolding handle expect_missing
  RoundCovered-handle s f folders (from_cache t) h =
      RoundCovered-handle_missing (expect_missing w libraries_build_path arch s t) f folders
        (from_cache t) t h
  RoundCovered-handle s f folders (from_run t) h =
      RoundCovered-handle_missing (expect_missing w libraries_build_path arch s t) f folders
        (from_run t) t h
  RoundCovered-handle s f folders stopped h = h
  RoundCovered-handle s f folders finder_panicked h = tt

  RoundCovered-round :
      (unchanged : Bool) (s : Search) (f : SourceFile)
      → IsCovered s
      → RoundCovered w libraries_build_path arch (round w libraries_build_path arch unchanged s f)
  unfolding round expect_task
  RoundCovered-round unchanged s f h =
      let s' = expect_task w libraries_build_path arch s f in
      let folders = folders_for w libraries_build_path arch s f in
      RoundCovered-handle s' f folders
        (find_missing w libraries_build_path arch unchanged s' f folders) h

  EndsCovered-after_round :
      (fuel : ℕ) (unchanged : Bool) (f : SourceFile) (r : Round w libraries_build_path arch)
      → ((s : Search)
          → IsCovered s
          → EndsCovered (rounds w libraries_build_path arch fuel unchanged s f))
      → RoundCovered w libraries_build_path arch r
      → EndsCovered (elim r [
        | ended outcome ↦ outcome
        | again s ↦ rounds w libraries_build_path arch fuel unchanged s f
      ])
  EndsCovered-after_round fuel unchanged f (ended o) rest h = h
  EndsCovered-after_round fuel unchanged f (again s) rest h = rest s h

  EndsCovered-rounds :
      (fuel : ℕ) (unchanged : Bool) (s : Search) (f : SourceFile)
      → IsCovered s
      → EndsCovered (rounds w libraries_build_path arch fuel unchanged s f)
  unfolding rounds
  EndsCovered-rounds zero unchanged s f h = tt
  EndsCovered-rounds (suc fuel) unchanged s f h =
      EndsCovered-after_round fuel unchanged f (round w libraries_build_path arch unchanged s f)
        (λ s'. EndsCovered-rounds fuel unchanged s' f) (RoundCovered-round unchanged s f h)

  EndsCovered-find_missing_includes :
      (inner : ℕ) (s : Search) (f : SourceFile)
      → IsCovered s
      → EndsCovered (find_missing_includes w libraries_build_path arch inner s f)
  unfolding find_missing_includes
  EndsCovered-find_missing_includes inner s f h =
      elim (UpToDate-cases (obj_file_is_up_to_date w.clean w.stat w.read_file f)) [
        | inl e ↦ rw (e, find_missing_includes) h
        | inr (inl e) ↦ rw (e, find_missing_includes) (EndsCovered-rounds inner true s f h)
        | inr (inr e) ↦ rw (e, find_missing_includes) (EndsCovered-rounds inner false s f h)
      ]

  EndsCovered-after_file :
      (inner fuel : ℕ) (o : Outcome)
      → ((s : Search)
          → IsCovered s
          → EndsCovered (process_queue w libraries_build_path arch inner fuel s))
      → EndsCovered o
      → EndsCovered (elim o [
        | done s' ↦ process_queue w libraries_build_path arch inner fuel s'
        | failed e s' ↦ failed e s'
        | panicked ↦ panicked
        | out_of_fuel ↦ out_of_fuel
      ])
  EndsCovered-after_file inner fuel (done s) rest h = rest s h
  EndsCovered-after_file inner fuel (failed e s) rest h = h
  EndsCovered-after_file inner fuel panicked rest h = tt
  EndsCovered-after_file inner fuel out_of_fuel rest h = tt

  EndsCovered-next_file :
      (inner fuel : ℕ) (s : Search) (queue : List SourceFile)
      → ((s : Search)
          → IsCovered s
          → EndsCovered (process_queue w libraries_build_path arch inner fuel s))
      → IsCovered s
      → EndsCovered (elim queue [
        | [] ↦ done s
        | source_file ∷ queue ↦
            elim (find_missing_includes w libraries_build_path arch inner
              (record s { queue = queue })
              source_file) [
                | done s' ↦ process_queue w libraries_build_path arch inner fuel s'
                | failed e s' ↦ failed e s'
                | panicked ↦ panicked
                | out_of_fuel ↦ out_of_fuel
              ]
      ])
  EndsCovered-next_file inner fuel s [] rest h = h
  EndsCovered-next_file inner fuel s (f ∷ queue) rest h =
      EndsCovered-after_file inner fuel
        (find_missing_includes w libraries_build_path arch inner (record s { queue = queue }) f)
        rest (EndsCovered-find_missing_includes inner (record s { queue = queue }) f h)

  EndsCovered-process_queue :
      (inner fuel : ℕ) (s : Search)
      → IsCovered s
      → EndsCovered (process_queue w libraries_build_path arch inner fuel s)
  unfolding process_queue
  EndsCovered-process_queue inner zero s h = tt
  EndsCovered-process_queue inner (suc fuel) s h =
      EndsCovered-next_file inner fuel s s.queue (EndsCovered-process_queue inner fuel) h

module _ (w : World) (r : Request) where
  IsCovered-first_folders : (s : Search) → IsCovered s → IsCovered (first_folders w r s)
  unfolding first_folders
  IsCovered-first_folders s h = elim (Option-cases r.build_variant_path) [
    | inl e ↦ rw e (IsCovered-add_include_folder s r.build_core_path h)
    | inr (path, e) ↦ rw e (
        IsCovered-add_include_folder (add_include_folder s r.build_core_path) path
          (IsCovered-add_include_folder s r.build_core_path h))
  ]

  IsCovered-prepare : (s : Search) (f : SourceFile) → IsCovered s → IsCovered (prepare w r s f)
  unfolding prepare
  IsCovered-prepare s f h =
      IsCovered-stage_profile_libraries (w.sort_by_name r.all_installed) _
        (IsCovered-first_folders s h)

  EndsCovered-check_imported : (o : Outcome) → EndsCovered o → EndsCovered (check_imported w r o)
  unfolding check_imported
  EndsCovered-check_imported (done s) h =
      elim (Option-cases (fail_if_imported_library_is_wrong w s.imported)) [
        | inl e ↦ rw (e, check_imported) h
        | inr (err, e) ↦ rw (e, check_imported) h
      ]
  EndsCovered-check_imported (failed e s) h = h
  EndsCovered-check_imported panicked h = h
  EndsCovered-check_imported out_of_fuel h = h

  EndsCovered-drop_error : (o : Outcome) → EndsCovered o → EndsCovered (drop_error w r o)
  unfolding drop_error
  EndsCovered-drop_error (done s) h = h
  EndsCovered-drop_error (failed e s) h = elim (Bool-cases r.only_update_compilation_database) [
    | inl e ↦ rw e h
    | inr e ↦ rw e h
  ]
  EndsCovered-drop_error panicked h = h
  EndsCovered-drop_error out_of_fuel h = h

  EndsCovered-either :
      (b : Bool) (o o' : Outcome)
      → EndsCovered o
      → EndsCovered o'
      → EndsCovered (if b then o else o')
  EndsCovered-either true o o' h h' = h
  EndsCovered-either false o o' h h' = h'

  EndsCovered-search_libraries :
      (inner fuel : ℕ) (s : Search) → IsCovered s → EndsCovered (search_libraries w r inner fuel s)
  unfolding search_libraries
  EndsCovered-search_libraries inner fuel s h =
      elim (Option-cases (
        make_source_file w r.sketch_build_path r.sketch_build_path
          (r.main_file_base ++ codes ".cpp.merged") none)) [
            | inl e ↦ rw (e, search_libraries) h
            | inr (f, e) ↦
                let search =
                  process_queue w r.libraries_build_path r.platform_arch inner fuel
                    (prepare w r s f) in
                rw (e, search_libraries)
                  (EndsCovered-check_imported
                    (if r.use_cached_libraries_resolution
                      then done (first_folders w r s)
                      else search)
                    (EndsCovered-either r.use_cached_libraries_resolution
                      (done (first_folders w r s)) search (IsCovered-first_folders s h)
                      (EndsCovered-process_queue w r.libraries_build_path r.platform_arch inner fuel
                        (prepare w r s f) (IsCovered-prepare s f h))))
          ]

  -- Wherever the search for the libraries of a sketch ends, with or without an error, the source folder of every
  -- library that it imported, or staged for the sketch's profile, is on the include path.
  pub find_includes-IsCovered :
      (inner fuel : ℕ) (headers : Headers) → EndsCovered (find_includes w r inner fuel headers)
  unfolding find_includes find_includes_in new_search
  find_includes-IsCovered inner fuel headers =
      let s = new_search headers r.cache_entries in
      let fresh : IsCovered s = λ lib m. elim m [ inl a ↦ absurd a | inr b ↦ absurd b ] in
      elim (Option-cases
        (cached_folders w r r.use_cached_libraries_resolution r.cached_include_folders)) [
          | inl e ↦
              rw (e, find_includes_in)
                (EndsCovered-drop_error (search_libraries w r inner fuel s)
                  (EndsCovered-search_libraries inner fuel s fresh))
          | inr (folders, e) ↦
              rw (e, find_includes_in)
                (EndsCovered-drop_error
                  (done (record (new_search headers []) { include_folders = folders }))
                  (λ lib m. elim m [ inl a ↦ absurd a | inr b ↦ absurd b ]))
        ]
