-- ===== src/OrderedMap/Set.antt =====
-- `Set`: what it stores, where the key goes, and the consistency that it keeps.
use arduino_cli_android.Prelude.{
  true, false, [], ◌∷◌, ◌++◌, some, Eq, ◌==◌, if◌then◌else◌, ◌≡◌, arith, lookup-assign,
  lookup-delete, member, member-erase, erase, erase_id, Bool-cases, inl, inr, map-append, ◌∙◌, sym,
  length,
}
use arduino_cli_android.OrderedMap.{OrderedMap, get_ok, contains_key, remove, set, size, keys}
use arduino_cli_android.OrderedMap.Laws.{
  IsConsistent, order, order-remove, remove-IsConsistent, contains_key-eq-member, insert_new,
  insert_new-IsConsistent,
}

module _ {K V C : Type 0} ⦃e : Eq C⦄ where
  -- `Set` is the insertion of a key that is not there, after the removal of an old one.
  set_old :
      (m : OrderedMap K V C) (key : K) (value : V)
      → contains_key m key ≡ true
      → set m key value ≡ insert_new (remove m key) key value
  unfolding set insert_new remove
  set_old m key value h = rw h

  set_new :
      (m : OrderedMap K V C) (key : K) (value : V)
      → contains_key m key ≡ false
      → set m key value ≡ insert_new m key value
  unfolding set insert_new
  set_new m key value h = rw h

  pub contains_key-eq-order :
      (m : OrderedMap K V C) (key : K)
      → IsConsistent m
      → contains_key m key ≡ member (m.conv key) (order m)
  contains_key-eq-order m key w = contains_key-eq-member m key ∙ w.same_keys (m.conv key)

  -- The key is gone from the order after `Remove`.
  removed_absent :
      (m : OrderedMap K V C) (key : K)
      → IsConsistent m
      → member ((remove m key).conv key) (order (remove m key)) ≡ false
  unfolding remove
  removed_absent m key w = rw (order-remove m key) (
      ground (
        arith,
        member-erase (m.conv key) (m.conv key) (order m) w.order_unique,
        e.test_iff (m.conv key) (m.conv key),
      ))

  -- `Set` keeps the order list and the table consistent, for an old key and for a new one.
  pub set-IsConsistent :
      (m : OrderedMap K V C) (key : K) (value : V) → IsConsistent m → IsConsistent (set m key value)
  set-IsConsistent m key value w = elim (Bool-cases (contains_key m key)) [
    | inl here ↦ rw (set_old m key value here) (
        insert_new-IsConsistent (remove m key) key value (remove-IsConsistent m key w)
          (removed_absent m key w))
    | inr absent ↦
        rw (set_new m key value absent)
          (insert_new-IsConsistent m key value w (sym (contains_key-eq-order m key w) ∙ absent))
  ]

  -- The key that is set comes last in the order, and the others keep their places.
  pub order-set :
      (m : OrderedMap K V C) (key : K) (value : V)
      → IsConsistent m
      → order (set m key value) ≡ erase (m.conv key) (order m) ++ (m.conv key ∷ [])
  unfolding insert_new remove
  order-set m key value w = elim (Bool-cases (contains_key m key)) [
    | inl here ↦
        rw (set_old m key value here)
          (map-append m.conv (remove m key).o (key ∷ []) ∙ (rw (order-remove m key)))
    | inr absent ↦ rw (set_new m key value absent) (
        rw (erase_id (m.conv key) (order m) (sym (contains_key-eq-order m key w) ∙ absent))
          (map-append m.conv m.o (key ∷ [])))
  ]

  -- A read after `Set` gives the new value at the key that was set, and the old one elsewhere.
  pub get_ok-set :
      (m : OrderedMap K V C) (key j : K) (value : V)
      → IsConsistent m
      → get_ok (set m key value) j ≡ (if m.conv key == m.conv j then some value else get_ok m j)
  unfolding get_ok insert_new remove
  get_ok-set m key j value w =
      let c = m.conv key in
      let d = m.conv j in
      elim (Bool-cases (contains_key m key)) [
        | inl here ↦ rw (set_old m key value here) (
            ground (
              arith,
              lookup-assign c d value (remove m key).kv,
              lookup-delete c d m.kv w.table_unique,
            ))
        | inr absent ↦ rw (set_new m key value absent) (lookup-assign c d value m.kv)
      ]

  pub conv-set : (m : OrderedMap K V C) (key : K) (value : V) → (set m key value).conv ≡ m.conv
  unfolding set remove
  conv-set m key value = elim (Bool-cases (contains_key m key)) [
    | inl here ↦ rw here
    | inr absent ↦ rw absent
  ]

  pub order_list-set_new :
      (m : OrderedMap K V C) (key : K) (value : V)
      → contains_key m key ≡ false
      → (set m key value).o ≡ m.o ++ (key ∷ [])
  unfolding insert_new
  order_list-set_new m key value h = rw (set_new m key value h)

  -- `Size` counts the keys that `Keys` lists.
  pub size-eq-length-keys : (m : OrderedMap K V C) → IsConsistent m → size m ≡ length (keys m)
  unfolding size keys
  size-eq-length-keys m w = w.same_size
