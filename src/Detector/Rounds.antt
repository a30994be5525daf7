-- ===== src/Detector/Rounds.antt =====
-- One round of the search: it ends, or imports a library that was not imported. Only a library brings files into
-- the queue.
use arduino_cli_android.Prelude.{
  ℕ, ◌+◌, ◌≤◌, ◌<◌, Bool, false, ◌||◌, List, [], ◌∷◌, Option, none, some, ◌==◌, nat_eq, list_eq,
  any, length, ◌≡◌, ◌≢◌, ◌⊎◌, ◌↔◌, refl, sym, inl, inr, arith, Elem, Bool-cases, Option-cases,
  assign, false≢true,
}
use arduino_cli_android.Strings.{Text, is_empty}
use arduino_cli_android.SourceFile.{SourceFile}
use arduino_cli_android.Libraries.{Library}
use arduino_cli_android.Libraries.Location.{profile}
use arduino_cli_android.Libraries.Collection.{contains}
use arduino_cli_android.Resolver.{Headers, alternatives_for, resolve_for}
use arduino_cli_android.Resolver.Scan.{alternatives-assign}
use arduino_cli_android.Resolver.Resolution.{resolve_for-IsAnswer, All-of_Elem, IsAnswer}
use arduino_cli_android.Cpp.DepFile.{DepFileError, Dependencies, Fallible, read_dep_file}
use arduino_cli_android.Detector.{
  Search, Outcome, done, failed, panicked, out_of_fuel, Round, ended, again, Missing, from_cache,
  from_run, stopped, finder_panicked, add_include_folder, closed_up, select, resolve_library,
  add_and_build_library, commit_staged_library, commit_dependencies, commit_read, expect_task,
  expect_missing, folders_for, find_missing, add_library, resolve_missing, handle_missing, handle,
  round,
}
use arduino_cli_android.Detector.Outside.{World}
use arduino_cli_android.Detector.Weights.{
  total, unimported, unimported_le, unimported_drop, work, length-add_and_build_library,
  total-commit_staged_library,
}
use arduino_cli_android.Detector.Candidates.{Elem-closed_up, any-Elem}

pub Fallible-cases :
    (f : Fallible Dependencies)
    → ((e : DepFileError) × (f ≡ Fallible.failed e)) ⊎ ((d : Dependencies) × (f ≡ Fallible.done d))
Fallible-cases (Fallible.failed e) = inl (e, refl)
Fallible-cases (Fallible.done d) = inr (d, refl)

-- The resolver offers known libraries only, and none of a profile.
abbrev pub AreKnownIn : List Library → Headers → Type 0
AreKnownIn known headers =
    (header : Text) (lib : Library)
    → Elem lib (alternatives_for headers header)
    → Elem lib known × (lib.location ≢ profile)

-- The work that is left: the queue, and what libraries may still add to it.
abbrev pub work_left : World → List Library → Search → ℕ
work_left w known s =
    length s.queue + unimported (work w) s.imported known + total (work w) s.staged

module _ (w : World) (libraries_build_path arch : Text) (known : List Library)
    (sort_keeps : (libs : List Library) (lib : Library)
      → Elem lib (w.sort_by_name libs) ↔ Elem lib libs) where
  abbrev pub AreKnown : Headers → Type 0
  AreKnown = AreKnownIn known

  abbrev pub left : Search → ℕ
  left = work_left w known

  abbrev pub rounds_left : Search → ℕ
  rounds_left s = unimported (λ u. 1) s.imported known

  AreKnown-closed_up :
      (headers : Headers) (header : Text) (lib : Library)
      → AreKnown headers
      → AreKnown (assign header (closed_up (alternatives_for headers header) lib) headers)
  AreKnown-closed_up headers header lib k j l m = elim (Bool-cases (header == j)) [
    | inl e ↦ k header l (
        Elem-closed_up (alternatives_for headers header) lib l (
          rw
            (
              alternatives-assign headers header j
                  (closed_up (alternatives_for headers header) lib),
              e,
            )
            at m))
    | inr e ↦ k j l (
        rw
          (
            alternatives-assign headers header j (closed_up (alternatives_for headers header) lib),
            e,
          )
          at m)
  ]

  -- The library of a round: known, not imported before.
  record IsNew (s : Search) (header : Text) (lib : Library) : Type 0 where
    is_known : Elem lib known
    is_new : contains s.imported lib ≡ false
    found :
        resolve_library w libraries_build_path arch s header
        ≡ some (some lib, select s header (alternatives_for s.headers header) lib)

  IsNew-of_answer :
      (s : Search) (header : Text) (answer : Option Library)
      → AreKnown s.headers
      → (is_empty (alternatives_for s.headers header)
          || any (contains s.imported) (alternatives_for s.headers header))
        ≡ false
      → resolve_for w.closest w.sort_by_name s.headers header arch ≡ some answer
      → IsAnswer header arch (alternatives_for s.headers header) answer
      → (lib : Library) × IsNew s header lib
  unfolding resolve_library
  IsNew-of_answer s header none k e q right = absurd (false≢true (sym (rw (right, is_empty) at e)))
  IsNew-of_answer s header (some lib) k e q right = (
    lib,
    record {
      is_known = (k header lib right.0).0;
      is_new =
          any-Elem (contains s.imported) (alternatives_for s.headers header) lib (ground (arith, e))
            right.0;
      found = rw (e, q, resolve_library) refl;
    },
  )

  resolve_library-cases :
      (s : Search) (header : Text)
      → AreKnown s.headers
      → (resolve_library w libraries_build_path arch s header ≡ some (none, s))
        ⊎ ((lib : Library) × IsNew s header lib)
  unfolding resolve_library
  resolve_library-cases s header k =
      let candidates = alternatives_for s.headers header in
      elim (Bool-cases (is_empty candidates || any (contains s.imported) candidates)) [
        | inl e ↦ inl (rw (e, resolve_library) refl)
        | inr e ↦
            let (answer, q, right) =
              resolve_for-IsAnswer w.closest w.sort_by_name sort_keeps s.headers header arch
                (All-of_Elem candidates (λ lib m. (k header lib m).1)) in
            inr (IsNew-of_answer s header answer k e q right)
      ]

  -- Nothing new is to do after a step that ends; it does not run out of fuel.
  abbrev pub OutcomeOk : ℕ → Outcome → Type 0
  OutcomeOk n (done s) = AreKnown s.headers × (left s ≤ n)
  OutcomeOk n (failed e s) = Unit
  OutcomeOk n panicked = Unit
  OutcomeOk n out_of_fuel = ⊥

  abbrev pub RoundOk : ℕ → ℕ → Round w libraries_build_path arch → Type 0
  RoundOk n m (ended outcome) = OutcomeOk n outcome
  RoundOk n m (again s) = AreKnown s.headers × (left s ≤ n) × (rounds_left s < m)

  left-commit_dependencies :
      (s : Search) (deps : List Text)
      → AreKnown s.headers
      → AreKnown (commit_dependencies w libraries_build_path arch s deps).headers
        × (left (commit_dependencies w libraries_build_path arch s deps) ≤ left s)
  unfolding commit_dependencies add_and_build_library
  left-commit_dependencies s [] k = (k, omega arith)
  left-commit_dependencies s (dep ∷ deps) k =
      elim (Option-cases (commit_staged_library w libraries_build_path arch s.staged dep)) [
        | inl e ↦ rw (e, commit_dependencies) (left-commit_dependencies s deps k)
        | inr ((lib, others), e) ↦
            let s' = record s { staged = others } in
            let (k', le) =
              left-commit_dependencies (add_and_build_library w libraries_build_path arch s' lib)
                deps k in
            rw (e, commit_dependencies)
              (
                k',
                omega (
                  arith,
                  le,
                  length-add_and_build_library w libraries_build_path arch s' lib,
                  unimported_le (work w) s.imported lib known,
                  total-commit_staged_library w libraries_build_path arch (work w) s.staged dep lib
                      others e,
                ),
              )
      ]

  OutcomeOk-commit_read :
      (s : Search) (text : Option Text)
      → AreKnown s.headers
      → OutcomeOk (left s) (done (commit_read w libraries_build_path arch s text))
  unfolding commit_read
  OutcomeOk-commit_read s none k = (k, omega arith)
  OutcomeOk-commit_read s (some text) k = elim (Fallible-cases (read_dep_file text)) [
    | inl (e, q) ↦ rw (q, commit_read) (k, omega arith)
    | inr (deps, q) ↦ rw (q, commit_read) (left-commit_dependencies s deps.dependencies k)
  ]

  RoundOk-resolve_missing :
      (s : Search) (f : SourceFile) (folders : List Text) (m : Missing w libraries_build_path arch)
      (header : Text)
      → AreKnown s.headers
      → RoundOk
          (left s)
          (rounds_left s)
          (resolve_missing w libraries_build_path arch s f folders m header)
  unfolding resolve_missing add_library add_include_folder add_and_build_library select
  RoundOk-resolve_missing s f folders m header k = elim (resolve_library-cases s header k) [
    | inl e ↦ rw (e, resolve_missing) tt
    | inr (lib, new) ↦
        let s' = select s header (alternatives_for s.headers header) lib in
        rw (new.found, resolve_missing)
          (
            AreKnown-closed_up s.headers header lib k,
            omega (
              arith,
              length-add_and_build_library w libraries_build_path arch s' lib,
              unimported_drop (work w) s.imported lib known new.is_known new.is_new,
            ),
            omega (arith, unimported_drop (λ u. 1) s.imported lib known new.is_known new.is_new),
          )
  ]

  RoundOk-handle_missing :
      (s : Search) (f : SourceFile) (folders : List Text) (m : Missing w libraries_build_path arch)
      (header : Text)
      → AreKnown s.headers
      → RoundOk
          (left s)
          (rounds_left s)
          (handle_missing w libraries_build_path arch s f folders m header)
  unfolding handle_missing
  RoundOk-handle_missing s f folders m header k = elim (Bool-cases (is_empty header)) [
    | inl e ↦ rw e (OutcomeOk-commit_read s (w.dep_text f folders) k)
    | inr e ↦ rw e (RoundOk-resolve_missing s f folders m header k)
  ]

  RoundOk-handle :
      (s : Search) (f : SourceFile) (folders : List Text) (m : Missing w libraries_build_path arch)
      → AreKnown s.headers
      → RoundOk (left s) (rounds_left s) (handle w libraries_build_path arch s f folders m)
  unfolding handle expect_missing
  RoundOk-handle s f folders (from_cache h) k =
      RoundOk-handle_missing (expect_missing w libraries_build_path arch s h) f folders
        (from_cache h) h k
  RoundOk-handle s f folders (from_run h) k =
      RoundOk-handle_missing (expect_missing w libraries_build_path arch s h) f folders (from_run h)
        h k
  RoundOk-handle s f folders stopped k = tt
  RoundOk-handle s f folders finder_panicked k = tt

  pub RoundOk-round :
      (unchanged : Bool) (s : Search) (f : SourceFile)
      → AreKnown s.headers
      → RoundOk (left s) (rounds_left s) (round w libraries_build_path arch unchanged s f)
  unfolding round expect_task
  RoundOk-round unchanged s f k =
      let s' = expect_task w libraries_build_path arch s f in
      let folders = folders_for w libraries_build_path arch s f in
      RoundOk-handle s' f folders (find_missing w libraries_build_path arch unchanged s' f folders)
        k
