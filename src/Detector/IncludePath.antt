-- ===== src/Detector/IncludePath.antt =====
-- The folder of every library that the search imports is on the include path.
use arduino_cli_android.Prelude.{
  ◌||◌, List, [], ◌∷◌, Option, none, some, ◌==◌, nat_eq, list_eq, any, ◌≡◌, ◌⊎◌, sym, ap, subst,
  inl, inr, Elem, Elem-append, Elem-append-left, Elem-append-right, Bool-cases, Option-cases,
}
use arduino_cli_android.Strings.{Text, is_empty}
use arduino_cli_android.Libraries.{Library}
use arduino_cli_android.Libraries.Location.{profile}
use arduino_cli_android.Libraries.Collection.{contains, remove, location_eq}
use arduino_cli_android.Resolver.{alternatives_for, resolve_for}
use arduino_cli_android.Cpp.DepFile.{read_dep_file}
use arduino_cli_android.Detector.{
  Search, Outcome, done, failed, panicked, out_of_fuel, Round, ended, again, add_include_folder,
  stage_library_for_inclusion, select, resolve_library, add_and_build_library,
  commit_staged_library, commit_dependencies, commit_read, add_library,
}
use arduino_cli_android.Detector.Outside.{World}
use arduino_cli_android.Detector.Weights.{same_pair}
use arduino_cli_android.Detector.Rounds.{Fallible-cases}
use arduino_cli_android.Detector.Candidates.{Elem-remove}
use arduino_cli_android.Detector.Start.{stage_profile_libraries}

-- The imported and the staged libraries are on the include path.
abbrev pub IsCovered : Search → Type 0
IsCovered s =
    (lib : Library)
    → Elem lib s.imported ⊎ Elem lib s.staged
    → Elem lib.source_dir s.include_folders

abbrev pub EndsCovered : Outcome → Type 0
EndsCovered (done s) = IsCovered s
EndsCovered (failed e s) = IsCovered s
EndsCovered panicked = Unit
EndsCovered out_of_fuel = Unit

pub IsCovered-add_include_folder :
    (s : Search) (folder : Text) → IsCovered s → IsCovered (add_include_folder s folder)
unfolding add_include_folder
IsCovered-add_include_folder s folder h lib m =
    Elem-append-left lib.source_dir s.include_folders (folder ∷ []) (h lib m)

-- A library is staged and its folder added.
IsCovered-stage :
    (s : Search) (lib : Library)
    → IsCovered s
    → IsCovered (add_include_folder (stage_library_for_inclusion s lib) lib.source_dir)
unfolding add_include_folder stage_library_for_inclusion
IsCovered-stage s lib h x (inl m) =
    Elem-append-left x.source_dir s.include_folders (lib.source_dir ∷ []) (h x (inl m))
IsCovered-stage s lib h x (inr m) = elim (Elem-append x (remove s.staged lib) (lib ∷ []) m) [
  | inl old ↦
      Elem-append-left x.source_dir s.include_folders (lib.source_dir ∷ [])
        (h x (inr (Elem-remove s.staged lib x old)))
  | inr (inl new) ↦
      Elem-append-right x.source_dir s.include_folders (lib.source_dir ∷ [])
        (inl (ap (λ (l : Library). l.source_dir) new))
  | inr (inr never) ↦ absurd never
]

pub IsCovered-stage_profile_libraries :
    (libs : List Library) (s : Search) → IsCovered s → IsCovered (stage_profile_libraries libs s)
unfolding stage_profile_libraries
IsCovered-stage_profile_libraries [] s h = h
IsCovered-stage_profile_libraries (lib ∷ libs) s h = elim (Bool-cases (lib.location == profile)) [
  | inl e ↦
      rw (e, stage_profile_libraries)
        (IsCovered-stage_profile_libraries libs
          (add_include_folder (stage_library_for_inclusion s lib) lib.source_dir)
          (IsCovered-stage s lib h))
  | inr e ↦ rw (e, stage_profile_libraries) (IsCovered-stage_profile_libraries libs s h)
]

module _ (w : World) (libraries_build_path arch : Text) where
  -- What is committed was staged, and what is left as well.
  Elem-commit_staged_library :
      (staged : List Library) (path : Text) (lib : Library) (others : List Library)
      → commit_staged_library w libraries_build_path arch staged path ≡ some (lib, others)
      → Elem lib staged × ((x : Library) → Elem x others → Elem x staged)
  unfolding commit_staged_library
  Elem-commit_staged_library [] path lib others h = cc h
  Elem-commit_staged_library (y ∷ staged) path lib others h =
      elim (Bool-cases (w.is_inside_dir path y.install_dir)) [
        | inl e ↦
            let (a, b) = same_pair (rw (e, commit_staged_library) at h) in
            (inl (sym a), λ x m. inr (subst (λ l. Elem x l) (sym b) m))
        | inr e ↦
            elim (Option-cases (commit_staged_library w libraries_build_path arch staged path)) [
              | inl f ↦ let h' = rw (e, f, commit_staged_library) at h in cc h'
              | inr ((found, rest), f) ↦
                  let (a, b) = same_pair (rw (e, f, commit_staged_library) at h) in
                  let (m, k) = Elem-commit_staged_library staged path found rest f in
                  (
                    inr (subst (λ l. Elem l staged) a m),
                    λ x n. elim (subst (λ l. Elem x l) (sym b) n) [
                      | inl q ↦ inl q
                      | inr q ↦ inr (k x q)
                    ],
                  )
            ]
      ]

  IsCovered-commit_dependencies :
      (s : Search) (deps : List Text)
      → IsCovered s
      → IsCovered (commit_dependencies w libraries_build_path arch s deps)
  unfolding commit_dependencies add_and_build_library
  IsCovered-commit_dependencies s [] h = h
  IsCovered-commit_dependencies s (dep ∷ deps) h =
      elim (Option-cases (commit_staged_library w libraries_build_path arch s.staged dep)) [
        | inl e ↦ rw (e, commit_dependencies) (IsCovered-commit_dependencies s deps h)
        | inr ((lib, others), e) ↦
            let (m, k) = Elem-commit_staged_library s.staged dep lib others e in
            let s' =
              add_and_build_library w libraries_build_path arch (record s { staged = others })
                lib in
            rw (e, commit_dependencies)
              (IsCovered-commit_dependencies s' deps (λ x n. elim n [
                | inr q ↦ h x (inr (k x q))
                | inl q ↦ elim (Elem-append x s.imported (lib ∷ []) q) [
                  | inl old ↦ h x (inl old)
                  | inr (inl new) ↦ h x (inr (subst (λ l. Elem l s.staged) (sym new) m))
                  | inr (inr never) ↦ absurd never
                ]
              ]))
      ]

  pub IsCovered-commit_read :
      (s : Search) (text : Option Text)
      → IsCovered s
      → IsCovered (commit_read w libraries_build_path arch s text)
  unfolding commit_read
  IsCovered-commit_read s none h = h
  IsCovered-commit_read s (some text) h = elim (Fallible-cases (read_dep_file text)) [
    | inl (e, q) ↦ rw (q, commit_read) h
    | inr (deps, q) ↦ rw (q, commit_read) (IsCovered-commit_dependencies s deps.dependencies h)
  ]

  pub IsCovered-add_library :
      (s : Search) (lib : Library)
      → IsCovered s
      → IsCovered (add_library w libraries_build_path arch s lib)
  unfolding add_library add_include_folder add_and_build_library
  IsCovered-add_library s lib h x (inr m) =
      Elem-append-left x.source_dir s.include_folders (lib.source_dir ∷ []) (h x (inr m))
  IsCovered-add_library s lib h x (inl m) = elim (Elem-append x s.imported (lib ∷ []) m) [
    | inl old ↦
        Elem-append-left x.source_dir s.include_folders (lib.source_dir ∷ []) (h x (inl old))
    | inr (inl new) ↦
        Elem-append-right x.source_dir s.include_folders (lib.source_dir ∷ [])
          (inl (ap (λ (l : Library). l.source_dir) new))
    | inr (inr never) ↦ absurd never
  ]

  abbrev pub ResolvesCovered : Option (Option Library × Search) → Type 0
  ResolvesCovered none = Unit
  ResolvesCovered (some (answer, s)) = IsCovered s

  pub ResolvesCovered-resolve_library :
      (s : Search) (header : Text)
      → IsCovered s
      → ResolvesCovered (resolve_library w libraries_build_path arch s header)
  unfolding resolve_library select
  ResolvesCovered-resolve_library s header h =
      let candidates = alternatives_for s.headers header in
      elim (Bool-cases (is_empty candidates || any (contains s.imported) candidates)) [
        | inl e ↦ rw (e, resolve_library) h
        | inr e ↦ elim (Option-cases (resolve_for w.closest w.sort_by_name s.headers header arch)) [
          | inl f ↦ rw (e, f, resolve_library) tt
          | inr (none, f) ↦ rw (e, f, resolve_library) tt
          | inr (some lib, f) ↦ rw (e, f, resolve_library) h
        ]
      ]

  abbrev pub RoundCovered : Round w libraries_build_path arch → Type 0
  RoundCovered (ended o) = EndsCovered o
  RoundCovered (again s) = IsCovered s
