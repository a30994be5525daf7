-- ===== src/Instances/Lifecycle.antt =====
-- Ids are not given twice, an instance keeps to itself, and a deleted one stays deleted.
use arduino_cli_android.Prelude.{
  ℕ, ◌+◌, ◌%◌, ◌<◌, ◌≤◌, Bool, true, false, List, [], ◌∷◌, Option, none, some, lookup, assign,
  nat_eq, ◌==◌, nat_beq_iff, ◌≡◌, ◌≢◌, refl, arith, map_keys, lookup-assign, lookup-delete, Uniq,
  member, Bool-cases, Option-cases, if◌then◌else◌, inl, inr, sym, ◌∙◌, keys-delete, erase-Uniq,
  keys-assign_new, keys-assign_old, subst, snoc-Uniq,
}
use arduino_cli_android.Instances.{
  CoreInstance, Store, int32_values, update, set_libraries_index, set_library_manager, create,
  remove_instance, map_instance,
}

-- The instance at an id.
abbrev pub instance_at : Store → ℕ → Option CoreInstance
instance_at s id = lookup id s.instances

-- The table has one entry for each id, and the ids are below the next one.
pub record IsWellFormed (s : Store) : Type 0 where
  pub unique : Uniq (map_keys s.instances)
  pub below : (id : ℕ) → s.instances_count ≤ id → instance_at s id ≡ none

assign-Uniq :
    {V : Type 0} (id : ℕ) (v : V) (m : List (ℕ × V))
    → Uniq (map_keys m)
    → Uniq (map_keys (assign id v m))
assign-Uniq id v m u = elim (Bool-cases (member id (map_keys m))) [
  | inl here ↦ rw (keys-assign_old id v m here) u
  | inr absent ↦ rw (keys-assign_new id v m absent) (snoc-Uniq id (map_keys m) u absent)
]

some≢none : {i : CoreInstance} → some i ≢ none
some≢none e = cc

-- One call from outside. The last list of numbers is what the caller gives.
pub data Call : Type 0 where
  creates : ℕ → ℕ → Call
  sets_index sets_manager : ℕ → ℕ → Call
  deletes : ℕ → Call

module _ (empty_index : ℕ) where
  abbrev pub run : Call → Store → Store
  run (creates pm lm) s = (create empty_index s pm lm).0
  run (sets_index id li) s = (set_libraries_index s id li).0
  run (sets_manager id lm) s = (set_library_manager s id lm).0
  run (deletes id) s = (remove_instance s id).0

  abbrev pub run_all : List Call → Store → Store
  run_all [] s = s
  run_all (c ∷ cs) s = run_all cs (run c s)

  pub at-create :
      (s : Store) (pm lm j : ℕ)
      → instance_at (create empty_index s pm lm).0 j ≡ (
          if s.instances_count == j
          then some (record { pm = pm; lm = lm; li = empty_index })
          else instance_at s j)
  unfolding create
  at-create s pm lm j =
      lookup-assign s.instances_count j (record { pm = pm; lm = lm; li = empty_index }) s.instances

changed_by :
    (change : CoreInstance → CoreInstance) (m : List (ℕ × CoreInstance)) (id j : ℕ)
    → (o : Option CoreInstance) → lookup id m ≡ o
    → (if id == j then map_instance change o else lookup j m)
      ≡ (if id == j then map_instance change (lookup j m) else lookup j m)
changed_by change m id j o e = elim (Bool-cases (id == j)) [
  | inl same ↦
      let e' : lookup j m ≡ o = subst (λ k. lookup k m ≡ o) ((nat_beq_iff id j).0 same) e in
      rw (same, e') refl
  | inr other ↦ rw other refl
]

unchanged_by :
    (change : CoreInstance → CoreInstance) (m : List (ℕ × CoreInstance)) (id j : ℕ)
    → lookup id m ≡ none
    → lookup j m ≡ (if id == j then none else lookup j m)
unchanged_by change m id j e = elim (Bool-cases (id == j)) [
  | inl same ↦
      let e' : lookup j m ≡ none = subst (λ k. lookup k m ≡ none) ((nat_beq_iff id j).0 same) e in
      rw (same, e') refl
  | inr other ↦ rw other refl
]

pub at-update :
    (change : CoreInstance → CoreInstance) (s : Store) (id j : ℕ)
    → instance_at (update change s id).0 j
      ≡ (if id == j then map_instance change (instance_at s j) else instance_at s j)
unfolding update
at-update change s id j = elim (Option-cases (lookup id s.instances)) [
  | inl e ↦
      rw (e, update)
        (unchanged_by change s.instances id j e ∙ changed_by change s.instances id j none e)
  | inr (i, e) ↦
      rw (e, update)
        (lookup-assign id j (change i) s.instances ∙ changed_by change s.instances id j (some i) e)
]

pub at-remove_instance :
    (s : Store) (id j : ℕ)
    → IsWellFormed s
    → instance_at (remove_instance s id).0 j ≡ (if id == j then none else instance_at s j)
unfolding remove_instance
at-remove_instance s id j w = lookup-delete id j s.instances w.unique

-- The count of ids is left alone by a change, and so is the uniqueness of the entries.
pub update-kept :
    (change : CoreInstance → CoreInstance) (s : Store) (id : ℕ)
    → IsWellFormed s
    → IsWellFormed (update change s id).0
      × ((update change s id).0.instances_count ≡ s.instances_count)
unfolding update
update-kept change s id w = elim (Option-cases (lookup id s.instances)) [
  | inl e ↦ rw (e, update) (w, refl)
  | inr (i, e) ↦
      rw (e, update)
        (
          record {
            unique = assign-Uniq id (change i) s.instances w.unique;
            below =
                λ j le. lookup-assign id j (change i) s.instances ∙ not_new i e j (w.below j le);
          },
          refl,
        )
]
  where
    not_new :
        (i : CoreInstance)
        → lookup id s.instances ≡ some i
        → (j : ℕ) → lookup j s.instances ≡ none
        → (if id == j then some (change i) else lookup j s.instances) ≡ none
    not_new i e j h = elim (Bool-cases (id == j)) [
      | inl same ↦ absurd (
          some≢none
            (sym e ∙ subst (λ k. lookup k s.instances ≡ none) (sym ((nat_beq_iff id j).0 same)) h))
      | inr other ↦ rw other h
    ]

pub create-IsWellFormed :
    (empty_index : ℕ) (s : Store) (pm lm : ℕ)
    → IsWellFormed s
    → s.instances_count + 1 < int32_values
    → IsWellFormed (create empty_index s pm lm).0
      × ((create empty_index s pm lm).0.instances_count ≡ s.instances_count + 1)
unfolding create
create-IsWellFormed empty_index s pm lm w small =
    let next : (s.instances_count + 1) % int32_values ≡ s.instances_count + 1 =
      omega (arith, small) in
    (
      record {
        unique = assign-Uniq s.instances_count _ s.instances w.unique;
        below = λ j le.
            let above : s.instances_count + 1 ≤ j = omega (arith, le, next) in
            let other : (s.instances_count == j) ≡ false = ground (arith, above) in
            lookup-assign s.instances_count j _ s.instances
            ∙ rw other (w.below j (omega (arith, above)));
      },
      next,
    )

pub remove-IsWellFormed :
    (s : Store) (id : ℕ)
    → IsWellFormed s
    → IsWellFormed (remove_instance s id).0
      × ((remove_instance s id).0.instances_count ≡ s.instances_count)
unfolding remove_instance
remove-IsWellFormed s id w = (
  record {
    unique = rw (keys-delete id s.instances) (erase-Uniq id (map_keys s.instances) w.unique);
    below = λ j le.
        lookup-delete id j s.instances w.unique
        ∙ gone (id == j) (lookup j s.instances) (w.below j le);
  },
  refl,
)
  where
    gone : (b : Bool) (o : Option CoreInstance) → o ≡ none → (if b then none else o) ≡ none
    gone true o h = refl
    gone false o h = h
