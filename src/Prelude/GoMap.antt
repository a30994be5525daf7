-- ===== src/Prelude/GoMap.antt =====
-- Go's built-in `map`, as an association list with one entry for each key. A read of a missing key
-- is `none`; the order of iteration is not specified, and no operation here depends on it.
use mathlib.Core.Path.{◌≡◌, refl}
use mathlib.Core.Logic.{inl, inr}
use mathlib.Core.Bool.{true, false}
use mathlib.Core.Option.{Option, none, some}
use mathlib.Core.List.{List, [], ◌∷◌, ◌++◌}
use native.Mathlib.Omega.{arith}
use arduino_cli_android.Prelude.Tests.{if◌then◌else◌, Bool-cases}
use arduino_cli_android.Prelude.Equality.{Eq, ◌==◌, member}
use arduino_cli_android.Prelude.Distinct.{erase, Uniq}

module _ {K V : Type 0} where
  abbrev pub map_keys : List (K × V) → List K
  map_keys [] = []
  map_keys ((k, v) ∷ m) = k ∷ map_keys m

module _ {K V : Type 0} ⦃e : Eq K⦄ where
  -- `v, ok := m[k]`
  unfoldable pub lookup : K → List (K × V) → Option V
  lookup k [] = none
  lookup k ((j, v) ∷ m) = if j == k then some v else lookup k m

  -- `delete(m, k)`
  unfoldable pub delete : K → List (K × V) → List (K × V)
  delete k [] = []
  delete k ((j, v) ∷ m) = if j == k then m else (j, v) ∷ delete k m

  -- `m[k] = v`
  unfoldable pub assign : K → V → List (K × V) → List (K × V)
  assign k v [] = (k, v) ∷ []
  assign k v ((j, w) ∷ m) = if j == k then (k, v) ∷ m else (j, w) ∷ assign k v m

  pub lookup-assign :
      (k j : K) (v : V) (m : List (K × V))
      → lookup j (assign k v m) ≡ (if k == j then some v else lookup j m)
  unfolding lookup assign
  lookup-assign k j v [] = refl
  lookup-assign k j v ((i, w) ∷ m) =
      ground (arith, lookup-assign k j v m, e.test_iff i k, e.test_iff k j, e.test_iff i j)

  pub keys-delete : (k : K) (m : List (K × V)) → map_keys (delete k m) ≡ erase k (map_keys m)
  unfolding delete erase
  keys-delete k [] = refl
  keys-delete k ((j, v) ∷ m) = ground (arith, keys-delete k m)

  -- A key is bound exactly when it stands among the keys.
  pub lookup-none : (k : K) (m : List (K × V)) → member k (map_keys m) ≡ false → lookup k m ≡ none
  unfolding lookup
  lookup-none k [] h = refl
  lookup-none k ((j, v) ∷ m) h = ground (arith, lookup-none k m)

  pub lookup-some :
      (k : K) (m : List (K × V)) → member k (map_keys m) ≡ true → (v : V) × (lookup k m ≡ some v)
  unfolding lookup
  lookup-some k [] h = cc
  lookup-some k ((j, v) ∷ m) h = elim (Bool-cases (j == k)) [
    | inl same ↦ (v, rw same)
    | inr other ↦ let (w, p) = lookup-some k m (ground arith) in (w, ground arith)
  ]

  pub lookup-delete :
      (k j : K) (m : List (K × V))
      → Uniq (map_keys m)
      → lookup j (delete k m) ≡ (if k == j then none else lookup j m)
  unfolding lookup delete
  lookup-delete k j [] u = ground arith
  lookup-delete k j ((i, w) ∷ m) u = ground (
    arith,
    lookup-delete k j m u.1,
    lookup-none j m,
    e.test_iff i k,
    e.test_iff k j,
    e.test_iff i j,
  )

  pub keys-assign_new :
      (k : K) (v : V) (m : List (K × V))
      → member k (map_keys m) ≡ false
      → map_keys (assign k v m) ≡ map_keys m ++ (k ∷ [])
  unfolding assign
  keys-assign_new k v [] h = refl
  keys-assign_new k v ((j, w) ∷ m) h = ground (arith, keys-assign_new k v m)

  pub keys-assign_old :
      (k : K) (v : V) (m : List (K × V))
      → member k (map_keys m) ≡ true
      → map_keys (assign k v m) ≡ map_keys m
  unfolding assign
  keys-assign_old k v [] h = cc
  keys-assign_old k v ((j, w) ∷ m) h = ground (arith, keys-assign_old k v m, e.test_iff j k)
