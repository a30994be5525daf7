-- ===== src/Detector/Loops.antt =====
-- The loop over the rounds of a file and the loop over the queue come to an end on enough fuel.
use arduino_cli_android.Prelude.{
  ℕ, zero, suc, ◌≤◌, ◌<◌, Bool, true, false, List, [], ◌∷◌, length, ◌≡◌, ◌≢◌, ◌⊎◌, ◌↔◌, refl, ap,
  inl, inr, arith, Elem,
}
use arduino_cli_android.Strings.{Text}
use arduino_cli_android.SourceFile.{
  SourceFile, reuse, rebuild, error, UpToDate, obj_file_is_up_to_date,
}
use arduino_cli_android.Libraries.{Library}
use arduino_cli_android.Libraries.Collection.{location_eq}
use arduino_cli_android.Detector.{
  Search, Outcome, done, failed, panicked, out_of_fuel, Round, ended, again, round, rounds,
  find_missing_includes, process_queue,
}
use arduino_cli_android.Detector.Outside.{World}
use arduino_cli_android.Detector.Rounds.{
  AreKnown, left, rounds_left, OutcomeOk, RoundOk, RoundOk-round,
}
use arduino_cli_android.Detector.Weights.{unimported_le_length}

pub UpToDate-cases : (u : UpToDate) → (u ≡ error) ⊎ ((u ≡ reuse) ⊎ (u ≡ rebuild))
UpToDate-cases error = inl refl
UpToDate-cases reuse = inr (inl refl)
UpToDate-cases rebuild = inr (inr refl)

module _ (w : World) (libraries_build_path arch : Text) (known : List Library)
    (sort_keeps : (libs : List Library) (lib : Library)
      → Elem lib (w.sort_by_name libs) ↔ Elem lib libs) where
  abbrev pub Known : Search → Type 0
  Known s = AreKnown w libraries_build_path arch known sort_keeps s.headers

  abbrev pub todo : Search → ℕ
  todo = left w libraries_build_path arch known sort_keeps

  abbrev pub Ok : ℕ → Outcome → Type 0
  Ok = OutcomeOk w libraries_build_path arch known sort_keeps

  Ok-mono : (n m : ℕ) (o : Outcome) → n ≤ m → Ok n o → Ok m o
  Ok-mono n m (done s) le h = (h.0, omega (arith, h.1, le))
  Ok-mono n m (failed e s) le h = tt
  Ok-mono n m panicked le h = tt
  Ok-mono n m out_of_fuel le h = absurd h

  Ok-after_round :
      (n m fuel : ℕ) (unchanged : Bool) (f : SourceFile) (r : Round w libraries_build_path arch)
      → ((s : Search)
          → Known s
          → rounds_left w libraries_build_path arch known sort_keeps s < m
          → Ok (todo s) (rounds w libraries_build_path arch fuel unchanged s f))
      → RoundOk w libraries_build_path arch known sort_keeps n m r
      → Ok n (elim r [
        | ended outcome ↦ outcome
        | again s ↦ rounds w libraries_build_path arch fuel unchanged s f
      ])
  Ok-after_round n m fuel unchanged f (ended outcome) rest h = h
  Ok-after_round n m fuel unchanged f (again s) rest h =
      Ok-mono (todo s) n (rounds w libraries_build_path arch fuel unchanged s f) h.1
        (rest s h.0 h.2)

  Ok-rounds :
      (fuel : ℕ) (unchanged : Bool) (s : Search) (f : SourceFile)
      → Known s
      → rounds_left w libraries_build_path arch known sort_keeps s < fuel
      → Ok (todo s) (rounds w libraries_build_path arch fuel unchanged s f)
  unfolding rounds
  Ok-rounds zero unchanged s f k lt = absurd (omega (arith, lt))
  Ok-rounds (suc fuel) unchanged s f k lt =
      Ok-after_round (todo s) (rounds_left w libraries_build_path arch known sort_keeps s) fuel
        unchanged f (round w libraries_build_path arch unchanged s f)
        (λ s' k' lt'. Ok-rounds fuel unchanged s' f k' (omega (arith, lt, lt')))
        (RoundOk-round w libraries_build_path arch known sort_keeps unchanged s f k)

  Ok-find_missing_includes :
      (inner : ℕ) (s : Search) (f : SourceFile)
      → Known s
      → length known < inner
      → Ok (todo s) (find_missing_includes w libraries_build_path arch inner s f)
  unfolding find_missing_includes
  Ok-find_missing_includes inner s f k lt =
      let enough : rounds_left w libraries_build_path arch known sort_keeps s < inner =
        omega (arith, lt, unimported_le_length s.imported known) in
      elim (UpToDate-cases (obj_file_is_up_to_date w.clean w.stat w.read_file f)) [
        | inl e ↦ rw (e, find_missing_includes) tt
        | inr (inl e) ↦ rw (e, find_missing_includes) (Ok-rounds inner true s f k enough)
        | inr (inr e) ↦ rw (e, find_missing_includes) (Ok-rounds inner false s f k enough)
      ]

  -- What is left after the file that was taken.
  Ok-after_file :
      (n inner fuel : ℕ) (o : Outcome)
      → ((s : Search)
          → Known s
          → todo s < fuel
          → process_queue w libraries_build_path arch inner fuel s ≢ out_of_fuel)
      → n < fuel
      → Ok n o
      → elim o [
        | done s' ↦ process_queue w libraries_build_path arch inner fuel s'
        | failed e s' ↦ failed e s'
        | panicked ↦ panicked
        | out_of_fuel ↦ out_of_fuel
      ]
        ≢ out_of_fuel
  Ok-after_file n inner fuel (done s) rest lt h = rest s h.0 (omega (arith, lt, h.1))
  Ok-after_file n inner fuel (failed e s) rest lt h = λ q. cc
  Ok-after_file n inner fuel panicked rest lt h = λ q. cc
  Ok-after_file n inner fuel out_of_fuel rest lt h = absurd h

  Ok-next_file :
      (inner fuel : ℕ) (s : Search) (queue : List SourceFile)
      → s.queue ≡ queue
      → Known s
      → length known < inner
      → todo s < suc fuel
      → ((s : Search)
          → Known s
          → todo s < fuel
          → process_queue w libraries_build_path arch inner fuel s ≢ out_of_fuel)
      → elim queue [
        | [] ↦ done s
        | source_file ∷ queue ↦
            elim (find_missing_includes w libraries_build_path arch inner
              (record s { queue = queue })
              source_file) [
                | done s' ↦ process_queue w libraries_build_path arch inner fuel s'
                | failed e s' ↦ failed e s'
                | panicked ↦ panicked
                | out_of_fuel ↦ out_of_fuel
              ]
      ]
        ≢ out_of_fuel
  Ok-next_file inner fuel s [] e k lt lt' rest = λ q. cc
  Ok-next_file inner fuel s (f ∷ queue) e k lt lt' rest =
      let one_less : length s.queue ≡ suc (length queue) = ap length e in
      Ok-after_file (todo (record s { queue = queue })) inner fuel
        (find_missing_includes w libraries_build_path arch inner (record s { queue = queue }) f)
        rest (omega (arith, lt', one_less))
        (Ok-find_missing_includes inner (record s { queue = queue }) f k lt)

  pub process_queue-ends :
      (inner fuel : ℕ) (s : Search)
      → Known s
      → length known < inner
      → todo s < fuel
      → process_queue w libraries_build_path arch inner fuel s ≢ out_of_fuel
  unfolding process_queue
  process_queue-ends inner zero s k lt lt' = absurd (omega (arith, lt'))
  process_queue-ends inner (suc fuel) s k lt lt' =
      Ok-next_file inner fuel s s.queue refl k lt lt'
        (λ s' k' lt''. process_queue-ends inner fuel s' k' lt lt'')
