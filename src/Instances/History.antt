-- ===== src/Instances/History.antt =====
-- What holds along any sequence of calls.
use arduino_cli_android.Prelude.{
  ℕ, ◌+◌, ◌<◌, ◌≤◌, Bool, true, false, List, [], ◌∷◌, Option, none, some, nat_eq, ◌==◌, nat_beq_iff,
  ◌≡◌, ◌≢◌, refl, arith, Option-cases, if◌then◌else◌, inl, inr, sym, ◌∙◌, false≢true, length, ap,
  beq_ne, lookup, ◌&&◌,
}
use native.Mathlib.Decide.{dec_lt}
use arduino_cli_android.Strings.{is_some}
use arduino_cli_android.Instances.{
  CoreInstance, Store, int32_values, get_package_manager, get_library_manager, get_libraries_index,
  set_libraries_index, set_library_manager, create, is_valid, remove_instance, map_instance, update,
}
use arduino_cli_android.Instances.Lifecycle.{
  instance_at, IsWellFormed, Call, creates, sets_index, sets_manager, deletes, run, run_all,
  at-create, at-update, at-remove_instance, update-kept, create-IsWellFormed, remove-IsWellFormed,
}

valid→below : (s : Store) (id : ℕ) → IsWellFormed s → is_valid s id ≡ true → id < s.instances_count
unfolding is_valid
valid→below s id w v = elim (dec_lt id s.instances_count) [
  | yes h ↦ h
  | no h ↦ absurd (false≢true (rw (w.below id (omega arith), is_valid) at v))
]

none→invalid : (s : Store) (id : ℕ) → instance_at s id ≡ none → is_valid s id ≡ false
unfolding is_valid
none→invalid s id h = rw (h, is_valid) refl

module _ (empty_index : ℕ) where
  -- What one call does to the table, to the count of ids and to an id that is not in use.
  record Kept (s s' : Store) : Type 0 where
    pub well_formed : IsWellFormed s'
    pub grows : s.instances_count ≤ s'.instances_count
    pub by_one : s'.instances_count ≤ s.instances_count + 1
    pub stays_unused :
        (id : ℕ) → id < s.instances_count → instance_at s id ≡ none → instance_at s' id ≡ none

  updated :
      (change : CoreInstance → CoreInstance) (id : ℕ) (s : Store)
      → IsWellFormed s
      → Kept s (update change s id).0
  updated change id s w =
      let (w', e) = update-kept change s id w in
      record {
        well_formed = w';
        grows = omega (arith, e);
        by_one = omega (arith, e);
        stays_unused = λ j lt h. at-update change s id j ∙ still_none (id == j) (instance_at s j) h;
      }
    where
      still_none :
          (b : Bool) (o : Option CoreInstance)
          → o ≡ none
          → (if b then map_instance change o else o) ≡ none
      still_none true o h = rw h refl
      still_none false o h = h

  removed : (id : ℕ) (s : Store) → IsWellFormed s → Kept s (remove_instance s id).0
  removed id s w =
      let (w', e) = remove-IsWellFormed s id w in
      record {
        well_formed = w';
        grows = omega (arith, e);
        by_one = omega (arith, e);
        stays_unused =
            λ j lt h. at-remove_instance s id j w ∙ still_none (id == j) (instance_at s j) h;
      }
    where
      still_none : (b : Bool) (o : Option CoreInstance) → o ≡ none → (if b then none else o) ≡ none
      still_none true o h = refl
      still_none false o h = h

  run-Kept :
      (c : Call) (s : Store)
      → IsWellFormed s
      → s.instances_count + 1 < int32_values
      → Kept s (run empty_index c s)
  unfolding set_libraries_index set_library_manager
  run-Kept (creates pm lm) s w small =
      let (w', e) = create-IsWellFormed empty_index s pm lm w small in
      record {
        well_formed = w';
        grows = omega (arith, e);
        by_one = omega (arith, e);
        stays_unused = λ id lt h.
            let other : (s.instances_count == id) ≡ false = ground (arith, lt) in
            at-create empty_index s pm lm id ∙ rw other h;
      }
  run-Kept (sets_index id li) s w small =
      updated (λ i. record { pm = i.pm; lm = i.lm; li = li }) id s w
  run-Kept (sets_manager id lm) s w small =
      updated (λ i. record { pm = i.pm; lm = lm; li = i.li }) id s w
  run-Kept (deletes id) s w small = removed id s w

  run_all-Kept :
      (cs : List Call) (s : Store) (id : ℕ)
      → IsWellFormed s
      → s.instances_count + length cs < int32_values
      → IsWellFormed (run_all empty_index cs s)
        × (id < s.instances_count
            → instance_at s id ≡ none
            → instance_at (run_all empty_index cs s) id ≡ none)
  run_all-Kept [] s id w small = (w, λ lt h. h)
  run_all-Kept (c ∷ cs) s id w small =
      let kept = run-Kept c s w (omega (arith, small)) in
      let (w', stays) =
        run_all-Kept cs (run empty_index c s) id kept.well_formed
          (omega (arith, small, kept.by_one)) in
      (w', λ lt h. stays (omega (arith, lt, kept.grows)) (kept.stays_unused id lt h))

  -- Any sequence of calls keeps the table well formed, as long as the ids do not run out: each id once,
  -- and all of them below the next.
  pub run_all-IsWellFormed :
      (cs : List Call) (s : Store)
      → IsWellFormed s
      → s.instances_count + length cs < int32_values
      → IsWellFormed (run_all empty_index cs s)
  run_all-IsWellFormed cs s w small = (run_all-Kept cs s 0 w small).0

  -- Once an instance is deleted, its id is invalid after any further calls, as long as the ids do not
  -- run out: no later instance gets the id.
  pub is_valid-remove_instance :
      (cs : List Call) (s : Store) (id : ℕ)
      → IsWellFormed s
      → s.instances_count + length cs < int32_values
      → is_valid s id ≡ true
      → is_valid (run_all empty_index cs (remove_instance s id).0) id ≡ false
  is_valid-remove_instance cs s id w small valid =
      let kept = removed id s w in
      let lt = valid→below s id w valid in
      let (w', e) = remove-IsWellFormed s id w in
      let gone : instance_at (remove_instance s id).0 id ≡ none =
        at-remove_instance s id id w ∙ rw ((nat_beq_iff id id).1 refl) refl in
      let (_, stays) = run_all-Kept cs (remove_instance s id).0 id w' (omega (arith, small, e)) in
      none→invalid (run_all empty_index cs (remove_instance s id).0) id
        (stays (omega (arith, lt, e)) gone)

  -- `Create` gives an id that was invalid, at which the new instance stands with an empty index, and
  -- leaves the instances at all other ids as they were; the table is well formed.
  pub instance_at-create :
      (s : Store) (pm lm : ℕ)
      → IsWellFormed s
      → (is_valid s (create empty_index s pm lm).1 ≡ false)
        × (instance_at (create empty_index s pm lm).0 (create empty_index s pm lm).1
            ≡ some (record { pm = pm; lm = lm; li = empty_index }))
        × ((j : ℕ)
            → j ≢ (create empty_index s pm lm).1
            → instance_at (create empty_index s pm lm).0 j ≡ instance_at s j)
  unfolding create
  instance_at-create s pm lm w = (
    none→invalid s s.instances_count (w.below s.instances_count (omega arith)),
    at-create empty_index s pm lm s.instances_count
        ∙ rw ((nat_beq_iff s.instances_count s.instances_count).1 refl) refl,
    λ j ne.
        at-create empty_index s pm lm j ∙ rw (beq_ne s.instances_count j (λ e. ne (sym e))) refl,
  )

flag_update :
    (change : CoreInstance → CoreInstance) (s : Store) (id : ℕ)
    → (update change s id).1 ≡ is_valid s id
unfolding update is_valid
flag_update change s id = elim (Option-cases (lookup id s.instances)) [
  | inl e ↦ rw (e, update) (rw (e, is_valid) refl)
  | inr (i, e) ↦ rw (e, update) (rw (e, is_valid) refl)
]

valid_at : (s : Store) (id j : ℕ) → (id == j) ≡ true → is_valid s id ≡ is_some (instance_at s j)
unfolding is_valid
valid_at s id j e = valid_here s id ∙ ap (λ k. is_some (instance_at s k)) ((nat_beq_iff id j).0 e)
  where
    valid_here : (t : Store) (k : ℕ) → is_valid t k ≡ is_some (instance_at t k)
    valid_here t k = elim (Option-cases (instance_at t k)) [
      | inl e ↦ rw (e, is_valid) refl
      | inr (i, e) ↦ rw (e, is_valid) refl
    ]

-- What a field reads after a change at an id, by the test on the id.
read_changed :
    (lm : ℕ) (here valid : Bool) (o : Option CoreInstance)
    → (here ≡ true → valid ≡ is_some o)
    → map_instance
        (λ i. i.lm)
        (if here then map_instance (λ i. record { pm = i.pm; lm = lm; li = i.li }) o else o)
      ≡ (if here && valid then some lm else map_instance (λ i. i.lm) o)
read_changed lm false valid o h = refl
read_changed lm true valid none h = rw (h refl) refl
read_changed lm true valid (some i) h = rw (h refl) refl

keeps :
    (f : CoreInstance → ℕ) (change : CoreInstance → CoreInstance)
    → ((i : CoreInstance) → f (change i) ≡ f i)
    → (b : Bool) (o : Option CoreInstance)
    → map_instance f (if b then map_instance change o else o) ≡ map_instance f o
keeps f change h false o = refl
keeps f change h true none = refl
keeps f change h true (some i) = ap some (h i)

-- `SetLibraryManager` succeeds exactly on a valid id. Then that instance has the manager and keeps
-- its package manager and index, and every other instance stays; on an invalid id nothing changes at
-- any id.
pub set_library_manager_lem :
    (s : Store) (id lm j : ℕ)
    → ((set_library_manager s id lm).1 ≡ is_valid s id)
      × (get_library_manager (set_library_manager s id lm).0 j
          ≡ (if id == j && is_valid s id then some lm else get_library_manager s j))
      × (get_package_manager (set_library_manager s id lm).0 j ≡ get_package_manager s j)
      × (get_libraries_index (set_library_manager s id lm).0 j ≡ get_libraries_index s j)
unfolding set_library_manager get_library_manager get_package_manager get_libraries_index
set_library_manager_lem s id lm j =
    let change : CoreInstance → CoreInstance = λ i. record { pm = i.pm; lm = lm; li = i.li } in
    let at_j = at-update change s id j in
    (
      flag_update change s id,
      rw (at_j, get_library_manager)
          (read_changed lm (id == j) (is_valid s id) (instance_at s j) (λ e. valid_at s id j e)),
      rw (at_j, get_package_manager)
          (keeps (λ i. i.pm) change (λ i. refl) (id == j) (instance_at s j)),
      rw (at_j, get_libraries_index)
          (keeps (λ i. i.li) change (λ i. refl) (id == j) (instance_at s j)),
    )
