-- ===== src/OrderedMap/Tests.antt =====
-- The theorems about `OrderedMap` at a concrete map, with numbers for keys.
use arduino_cli_android.Prelude.{ℕ, ◌≡◌, refl, [], ◌∷◌, ◌++◌, nat_eq, erase, lookup, delete, assign}
use arduino_cli_android.OrderedMap.{OrderedMap, set, get_ok, merge, keys}
use arduino_cli_android.OrderedMap.Laws.{IsConsistent, order}
use arduino_cli_android.OrderedMap.Set.{set-IsConsistent, order-set, get_ok-set}
use arduino_cli_android.OrderedMap.Merge.{get_ok-merge, newest}

abbrev empty : OrderedMap ℕ ℕ ℕ
empty = record { conv = λ k. k; kv = []; o = [] }

abbrev two : OrderedMap ℕ ℕ ℕ
two = record { conv = λ k. k; kv = (3, 30) ∷ (1, 10) ∷ []; o = 3 ∷ 1 ∷ [] }

empty-IsConsistent : IsConsistent empty
empty-IsConsistent = record {
  order_unique = tt;
  table_unique = tt;
  same_keys = λ c. refl;
  same_size = refl;
}

two-IsConsistent : IsConsistent two
two-IsConsistent = record {
  order_unique = (refl, (refl, tt));
  table_unique = (refl, (refl, tt));
  same_keys = λ c. refl;
  same_size = refl;
}

set_again : keys (set two 3 31) ≡ 1 ∷ 3 ∷ []
unfolding set keys lookup delete assign
set_again = refl

set-IsConsistent_example : IsConsistent (set two 3 31)
set-IsConsistent_example = set-IsConsistent two 3 31 two-IsConsistent

order-set_example : order (set two 3 31) ≡ erase 3 (order two) ++ (3 ∷ [])
order-set_example = order-set two 3 31 two-IsConsistent

get_ok-set_example : get_ok (set two 3 31) 1 ≡ get_ok two 1
get_ok-set_example = get_ok-set two 3 1 31 two-IsConsistent

get_ok-merge_example : get_ok (merge 0 empty (two ∷ [])) 3 ≡ newest 0 3 (get_ok empty 3) (two ∷ [])
get_ok-merge_example =
    get_ok-merge 0 empty (two ∷ []) 3 empty-IsConsistent ((refl, two-IsConsistent), tt)
