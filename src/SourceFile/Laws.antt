-- ===== src/SourceFile/Laws.antt =====
-- The queue holds no source file twice, and only an object file newer than all it was made from is
-- used again.
use arduino_cli_android.Prelude.{
  ℕ, ◌≤◌, Bool, false, List, [], ◌∷◌, ◌++◌, Option, none, some, ◌==◌, list_eq, nat_eq, list_beq_iff,
  ltb, any, ◌≡◌, ◌⊎◌, ◌≢◌, inl, inr, refl, arith, All, All-append, Bool-cases,
}
use arduino_cli_android.Strings.{Text}
use arduino_cli_android.Cpp.DepFile.{Dependencies, Fallible, failed, done, read_dep_file}
use arduino_cli_android.SourceFile.{
  SourceFile, equals, contains, push, Stat, found, missing, unreadable, reuse, rebuild, error,
  check_deps, check_source, check_read, check_depfile, check_stat, check_paths,
  obj_file_is_up_to_date,
}

module _ (equals_to : Option Text → Option Text → Bool) where
  -- No file equals one before it.
  abbrev pub IsDistinct : List SourceFile → Type 0
  IsDistinct [] = Unit
  IsDistinct (x ∷ queue) = All (λ y. equals equals_to y x ≡ false) queue × IsDistinct queue

  IsDistinct-snoc :
      (queue : List SourceFile) (value : SourceFile)
      → any (λ x. equals equals_to value x) queue ≡ false
      → IsDistinct queue
      → IsDistinct (queue ++ (value ∷ []))
  IsDistinct-snoc [] value h d = (tt, tt)
  IsDistinct-snoc (x ∷ queue) value h d = (
    All-append (λ y. equals equals_to y x ≡ false) queue (value ∷ []) d.0 (ground (arith, h), tt),
    IsDistinct-snoc queue value (ground (arith, h)) d.1,
  )

  -- `Push` keeps a queue in which no file equals one before it.
  pub push-IsDistinct :
      (queue : List SourceFile) (value : SourceFile)
      → IsDistinct queue
      → IsDistinct (push equals_to queue value)
  unfolding push contains
  push-IsDistinct queue value d = elim (Bool-cases (any (λ x. equals equals_to value x) queue)) [
    | inl here ↦ rw (here, push) d
    | inr new ↦ rw (new, push) (IsDistinct-snoc queue value new d)
  ]

Stat-cases : (s : Stat) → ((t : ℕ) × (s ≡ found t)) ⊎ ((s ≡ missing) ⊎ (s ≡ unreadable))
Stat-cases (found t) = inl (t, refl)
Stat-cases missing = inr (inl refl)
Stat-cases unreadable = inr (inr refl)

rebuild≢reuse : {A : Type 0} → rebuild ≡ reuse → A
rebuild≢reuse e = cc

error≢reuse : error ≢ reuse
error≢reuse e = cc

module _ (clean : Text → Text) (stat : Text → Stat) (read_file : Text → Option Text) where
  -- The file is there, and was not changed after the time.
  abbrev pub IsOlder : ℕ → Text → Type 0
  IsOlder time path = (t : ℕ) × (stat path ≡ found t) × (t ≤ time)

  -- The list is empty, or names the source first and then files that are older.
  abbrev pub AreOlder : ℕ → Text → List Text → Type 0
  AreOlder time source [] = Unit
  AreOlder time source (first ∷ deps) = (first ≡ source) × All (IsOlder time) deps

  -- What must hold for an object file to be used again.
  abbrev pub IsFresh : Text → Option Text → Type 0
  IsFresh source none = ⊥
  IsFresh source (some depfile) =
      (time : ℕ) × (text : Text) × (deps : Dependencies) × (stat (clean depfile) ≡ found time)
      × IsOlder time (clean source)
      × (read_file (clean depfile) ≡ some text)
      × (read_dep_file text ≡ done deps)
      × AreOlder time (clean source) deps.dependencies

  check_deps-IsOlder :
      (time : ℕ) (deps : List Text)
      → check_deps clean stat read_file time deps ≡ reuse
      → All (IsOlder time) deps
  unfolding check_deps
  check_deps-IsOlder time [] h = tt
  check_deps-IsOlder time (dep ∷ deps) h = elim (Stat-cases (stat dep)) [
    | inl (t, e) ↦ elim (Bool-cases (ltb time t)) [
      | inl newer ↦ rebuild≢reuse (rw newer at (rw (e, check_deps) at h))
      | inr older ↦ (
        (t, e, ground (arith, older)),
        check_deps-IsOlder time deps (rw older at (rw (e, check_deps) at h)),
      )
    ]
    | inr (inl e) ↦ rebuild≢reuse (rw (e, check_deps) at h)
    | inr (inr e) ↦ rebuild≢reuse (rw (e, check_deps) at h)
  ]

  check_source-older :
      (source : Text) (time : ℕ) (deps : List Text)
      → check_source clean stat read_file source time deps ≡ reuse
      → AreOlder time source deps
  unfolding check_source
  check_source-older source time [] h = tt
  check_source-older source time (first ∷ deps) h = elim (Bool-cases (first == source)) [
    | inl same ↦ (
      (list_beq_iff first source).0 same,
      check_deps-IsOlder time deps (rw (same, check_source) at h),
    )
    | inr other ↦ rebuild≢reuse (rw (other, check_source) at h)
  ]

  check_read-older :
      (source : Text) (time : ℕ) (o : Option Text)
      → check_read clean stat read_file source time o ≡ reuse
      → (text : Text) × (deps : Dependencies) × (o ≡ some text)
        × (read_dep_file text ≡ done deps)
        × AreOlder time source deps.dependencies
  unfolding check_read
  check_read-older source time none h = cc
  check_read-older source time (some text) h = of_deps (read_dep_file text) refl
    where
      of_deps :
          (r : Fallible Dependencies)
          → read_dep_file text ≡ r
          → (text' : Text) × (deps : Dependencies) × (some text ≡ some text')
            × (read_dep_file text' ≡ done deps)
            × AreOlder time source deps.dependencies
      of_deps (failed e) q = absurd (error≢reuse (rw (q, check_read) at h))
      of_deps (done deps) q = (
        text,
        deps,
        refl,
        q,
        check_source-older source time deps.dependencies (rw (q, check_read) at h),
      )

  check_stats-fresh :
      (source depfile : Text) (s d : Stat)
      → stat source ≡ s
      → stat depfile ≡ d
      → check_stat clean stat read_file source depfile s ≡ reuse
      → (time : ℕ) × (stat depfile ≡ found time)
        × IsOlder time source
        × (check_read clean stat read_file source time (read_file depfile) ≡ reuse)
  unfolding check_stat check_depfile
  check_stats-fresh source depfile missing d es ed h = cc
  check_stats-fresh source depfile unreadable d es ed h = cc
  check_stats-fresh source depfile (found t) missing es ed h = rebuild≢reuse (rw ed at h)
  check_stats-fresh source depfile (found t) unreadable es ed h = absurd (error≢reuse (rw ed at h))
  check_stats-fresh source depfile (found t) (found time) es ed h = elim (Bool-cases (ltb time t)) [
    | inl newer ↦ rebuild≢reuse (rw (newer, check_depfile) at (rw ed at h))
    | inr older ↦
        (time, ed, (t, es, ground (arith, older)), rw (older, check_depfile) at (rw ed at h))
  ]

  check_paths-IsFresh :
      (source : Text) (depfile : Option Text)
      → check_paths clean stat read_file source depfile ≡ reuse
      → IsFresh source depfile
  unfolding check_paths
  check_paths-IsFresh source none h = absurd (rebuild≢reuse h)
  check_paths-IsFresh source (some depfile) h =
      let (time, e, older, read) =
        check_stats-fresh (clean source) (clean depfile) (stat (clean source))
          (stat (clean depfile)) refl refl h in
      let (text, deps, q, r, all_older) =
        check_read-older (clean source) time (read_file (clean depfile)) read in
      (time, text, deps, e, older, q, r, all_older)

  -- An object file is used again only if it is fresh: its dependency file can be read, the source is there
  -- and not newer than that file, and the file either lists no dependency at all, or lists the source first
  -- and then only files that are there and not newer.
  pub obj_file_is_up_to_date-IsFresh :
      (f : SourceFile)
      → obj_file_is_up_to_date clean stat read_file f ≡ reuse
      → IsFresh f.source_path f.depfile_path
  unfolding obj_file_is_up_to_date
  obj_file_is_up_to_date-IsFresh f h = check_paths-IsFresh f.source_path f.depfile_path h
