-- ===== src/Instances/Tests.antt =====
-- Two instances, of which the first is deleted.
use arduino_cli_android.Prelude.{
  ℕ, ◌≤◌, true, false, List, [], ◌∷◌, none, some, nat_eq, ◌≡◌, ◌≢◌, refl, arith, lookup,
}
use arduino_cli_android.Instances.{Store, create, remove_instance, is_valid}
use arduino_cli_android.Instances.Lifecycle.{
  IsWellFormed, Call, creates, sets_index, sets_manager, run_all, instance_at,
}
use arduino_cli_android.Instances.History.{
  run_all-IsWellFormed, is_valid-remove_instance, instance_at-create,
}

abbrev first_id : ℕ
first_id = 1

abbrev second_id : ℕ
second_id = 2

abbrev two : Store
two = record {
  instances =
      (1, record { pm = 10; lm = 20; li = 0 }) ∷ (2, record { pm = 11; lm = 21; li = 0 }) ∷ [];
  instances_count = 3;
  destroyed = [];
}

two_below : (id : ℕ) → 3 ≤ id → instance_at two id ≡ none
unfolding lookup
two_below id le = ground (arith, le)

two-IsWellFormed : IsWellFormed two
two-IsWellFormed = record { unique = (refl, (refl, tt)); below = two_below }

valid_one : is_valid two 1 ≡ true
unfolding is_valid lookup
valid_one = refl

abbrev later : List Call
later = creates 12 22 ∷ sets_index 1 5 ∷ sets_manager 1 6 ∷ []

run_all-IsWellFormed_example : IsWellFormed (run_all 0 later two)
run_all-IsWellFormed_example = run_all-IsWellFormed 0 later two two-IsWellFormed (omega arith)

is_valid-remove_instance_example : is_valid (run_all 0 later (remove_instance two 1).0) 1 ≡ false
is_valid-remove_instance_example =
    is_valid-remove_instance 0 later two 1 two-IsWellFormed (omega arith) valid_one

instance_at-create_example :
    (is_valid two (create 0 two 12 22).1 ≡ false)
    × (instance_at (create 0 two 12 22).0 (create 0 two 12 22).1
        ≡ some (record { pm = 12; lm = 22; li = 0 }))
    × ((j : ℕ)
        → j ≢ (create 0 two 12 22).1
        → instance_at (create 0 two 12 22).0 j ≡ instance_at two j)
instance_at-create_example = instance_at-create 0 two 12 22 two-IsWellFormed
