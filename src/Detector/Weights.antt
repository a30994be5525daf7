-- ===== src/Detector/Weights.antt =====
-- Bounds on the work that is left: what a library can add to the queue, and the libraries that are not
-- imported yet.
use arduino_cli_android.Prelude.{
  ℕ, ◌+◌, ◌≤◌, Bool, true, false, ◌&&◌, List, [], ◌∷◌, ◌++◌, Option, none, some, ◌==◌, nat_eq,
  if◌then◌else◌, length, length-append, ◌≡◌, refl, inl, inr, arith, Elem, Bool-cases, Option-cases,
}
use arduino_cli_android.Strings.{Text}
use arduino_cli_android.SourceFile.{SourceFile, push, contains}
use arduino_cli_android.Libraries.{Library}
use arduino_cli_android.Libraries.Collection.{remove}
use arduino_cli_android.Detector.{Search, add_and_build_library, commit_staged_library}
use arduino_cli_android.Detector.Outside.{World}
use arduino_cli_android.Detector.Queue.{
  source_dirs, source_files_valid_extensions, find_files_in_folder, make_source_file, push_files,
  queue_source_files_from_folder, queue_source_dirs,
}
use arduino_cli_android.Libraries.Collection

length-push_le :
    (equals_to : Option Text → Option Text → Bool) (queue : List SourceFile) (f : SourceFile)
    → length (push equals_to queue f) ≤ length queue + 1
unfolding push
length-push_le equals_to queue f = elim (Bool-cases (contains equals_to queue f)) [
  | inl e ↦ rw (e, push) (omega arith)
  | inr e ↦ rw (e, push) (omega (arith, length-append queue (f ∷ [])))
]

contains_snoc :
    (imported : List Library) (l u : Library)
    → Collection.contains imported u ≡ true
    → Collection.contains (imported ++ (l ∷ [])) u ≡ true
unfolding Collection.contains
contains_snoc [] l u h = absurd (ground (arith, h))
contains_snoc (x ∷ imported) l u h = elim (Bool-cases (x.address == u.address)) [
  | inl e ↦ rw e refl
  | inr e ↦ rw e (contains_snoc imported l u (rw e at h))
]

contains_self :
    (imported : List Library) (l : Library) → Collection.contains (imported ++ (l ∷ [])) l ≡ true
unfolding Collection.contains
contains_self [] l = ground arith
contains_self (x ∷ imported) l = rw (contains_self imported l) (ground arith)

pub same_pair :
    {A B : Type 0} {a a' : A} {b b' : B}
    → ◌≡◌ {A = Option (A × B)} (some (a, b)) (some (a', b'))
    → (a ≡ a') × (b ≡ b')
same_pair h = (cc h, cc h)

module _ (weight : Library → ℕ) where
  abbrev pub total : List Library → ℕ
  total [] = 0
  total (u ∷ us) = weight u + total us

  abbrev pub left_in : Bool → Library → ℕ
  left_in here u = if here then 0 else weight u

  -- The weight of the libraries that are not imported.
  abbrev pub unimported : List Library → List Library → ℕ
  unimported imported [] = 0
  unimported imported (u ∷ us) = left_in (Collection.contains imported u) u + unimported imported us

  pub unimported_le :
      (imported : List Library) (l : Library) (us : List Library)
      → unimported (imported ++ (l ∷ [])) us ≤ unimported imported us
  unimported_le imported l [] = omega arith
  unimported_le imported l (u ∷ us) =
      let rest = unimported_le imported l us in
      elim (Bool-cases (Collection.contains imported u)) [
        | inl e ↦ rw (e, contains_snoc imported l u e) (omega (arith, rest))
        | inr e ↦ rw e (elim (Bool-cases (Collection.contains (imported ++ (l ∷ [])) u)) [
          | inl f ↦ rw f (omega (arith, rest))
          | inr f ↦ rw f (omega (arith, rest))
        ])
      ]

  pub unimported_drop :
      (imported : List Library) (l : Library) (us : List Library)
      → Elem l us
      → Collection.contains imported l ≡ false
      → unimported (imported ++ (l ∷ [])) us + weight l ≤ unimported imported us
  unimported_drop imported l [] m new = absurd m
  unimported_drop imported l (u ∷ us) (inl e) new =
      rw (← e) (rw (new, contains_self imported l) (omega (arith, unimported_le imported l us)))
  unimported_drop imported l (u ∷ us) (inr m) new =
      let rest = unimported_drop imported l us m new in
      elim (Bool-cases (Collection.contains imported u)) [
        | inl e ↦ rw (e, contains_snoc imported l u e) (omega (arith, rest))
        | inr e ↦ rw e (elim (Bool-cases (Collection.contains (imported ++ (l ∷ [])) u)) [
          | inl f ↦ rw f (omega (arith, rest))
          | inr f ↦ rw f (omega (arith, rest))
        ])
      ]

pub unimported_le_length :
    (imported us : List Library) → unimported (λ u. 1) imported us ≤ length us
unimported_le_length imported [] = omega arith
unimported_le_length imported (u ∷ us) =
    let rest = unimported_le_length imported us in
    elim (Bool-cases (Collection.contains imported u)) [
      | inl e ↦ rw e (omega (arith, rest))
      | inr e ↦ rw e (omega (arith, rest))
    ]

module _ (w : World) where
  abbrev pub count : Option (List Text) → ℕ
  count none = 0
  count (some files) = length files

  -- How many files a folder has for the queue.
  abbrev pub files_in : Text → Bool → ℕ
  files_in dir recurse = count (find_files_in_folder w dir recurse [] source_files_valid_extensions)

  abbrev pub files_in_dirs : List (Text × Bool) → ℕ
  files_in_dirs [] = 0
  files_in_dirs ((dir, recurse) ∷ dirs) = files_in dir recurse + files_in_dirs dirs

  abbrev pub work : Library → ℕ
  work lib = files_in_dirs (source_dirs lib)

  length-push_files_le :
      (source build : Text) (extra : Option Text) (files : List Text) (queue : List SourceFile)
      → length (push_files w source build extra files queue) ≤ length files + length queue
  unfolding push_files
  length-push_files_le source build extra [] queue = omega arith
  length-push_files_le source build extra (path ∷ files) queue =
      elim (Option-cases (make_source_file w source build path extra)) [
        | inl e ↦ rw (e, push_files) (omega arith)
        | inr (f, e) ↦
            rw (e, push_files)
              (omega (
                arith,
                length-push_files_le source build extra files (push w.equals_to queue f),
                length-push_le w.equals_to queue f,
              ))
      ]

  length-queue_source_files_le :
      (dir : Text) (recurse : Bool) (source build : Text) (extra : Option Text)
      (queue : List SourceFile)
      → length (queue_source_files_from_folder w dir recurse source build [] extra queue)
        ≤ files_in dir recurse + length queue
  unfolding queue_source_files_from_folder
  length-queue_source_files_le dir recurse source build extra queue =
      elim (Option-cases (find_files_in_folder w dir recurse [] source_files_valid_extensions)) [
        | inl e ↦ rw (e, queue_source_files_from_folder) (omega arith)
        | inr (files, e) ↦
            rw (e, queue_source_files_from_folder)
              (length-push_files_le source build extra files queue)
      ]

  length-queue_source_dirs_le :
      (lib : Library) (build : Text) (dirs : List (Text × Bool)) (queue : List SourceFile)
      → length (queue_source_dirs w lib build dirs queue) ≤ files_in_dirs dirs + length queue
  unfolding queue_source_dirs
  length-queue_source_dirs_le lib build [] queue = omega arith
  length-queue_source_dirs_le lib build ((dir, recurse) ∷ dirs) queue = omega (
    arith,
    length-queue_source_dirs_le lib build dirs (
        queue_source_files_from_folder w dir recurse lib.source_dir build [] lib.utility_dir queue),
    length-queue_source_files_le dir recurse lib.source_dir build lib.utility_dir queue,
  )

  module _ (libraries_build_path arch : Text) where
    pub length-add_and_build_library :
        (s : Search) (lib : Library)
        → length (add_and_build_library w libraries_build_path arch s lib).queue
          ≤ work lib + length s.queue
    unfolding add_and_build_library
    length-add_and_build_library s lib =
        elim (Bool-cases (lib.precompiled && lib.precompiled_with_sources)) [
          | inl e ↦ rw e (omega arith)
          | inr e ↦ rw e (
              length-queue_source_dirs_le lib (w.join libraries_build_path lib.dir_name)
                (source_dirs lib) s.queue)
        ]

    -- What is committed leaves the staged libraries.
    pub total-commit_staged_library :
        (weight : Library → ℕ) (staged : List Library) (path : Text) (lib : Library)
        (others : List Library)
        → commit_staged_library w libraries_build_path arch staged path ≡ some (lib, others)
        → weight lib + total weight others ≡ total weight staged
    unfolding commit_staged_library
    total-commit_staged_library weight [] path lib others h = cc
    total-commit_staged_library weight (x ∷ staged) path lib others h =
        elim (Bool-cases (w.is_inside_dir path x.install_dir)) [
          | inl e ↦
              let (same, same_others) = same_pair (rw (e, commit_staged_library) at h) in
              rw (← same, ← same_others) refl
          | inr e ↦
              elim (Option-cases (commit_staged_library w libraries_build_path arch staged path)) [
                | inl f ↦ let h' = rw (e, f, commit_staged_library) at h in cc
                | inr ((found, rest), f) ↦
                    let (same, same_others) = same_pair (rw (e, f, commit_staged_library) at h) in
                    let ih = total-commit_staged_library weight staged path found rest f in
                    rw (← same, ← same_others) (omega (arith, ih))
              ]
        ]
