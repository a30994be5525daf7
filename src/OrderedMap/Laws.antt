-- ===== src/OrderedMap/Laws.antt =====
-- The order list and the table of `OrderedMap` agree, and `Set` and `Remove` keep them so.
use arduino_cli_android.Prelude.{
  ℕ, Bool, false, List, [], ◌∷◌, ◌++◌, map, none, Eq, ◌==◌, if◌then◌else◌, ◌≡◌, refl, arith,
  map_keys, delete, assign, length, Uniq, erase, member, member-append, member-erase, erase-Uniq,
  length-erase, snoc-Uniq, keys-delete, lookup-delete, lookup-none, lookup-some, keys-assign_new,
  Bool-cases, inl, inr, length-append, length-map, ap, ◌∙◌, map-append,
}
use arduino_cli_android.OrderedMap.{
  OrderedMap, get_ok, contains_key, remove_key, remove, new_with_conversion_func,
}

length-keys : {K V : Type 0} (m : List (K × V)) → length (map_keys m) ≡ length m
length-keys [] = refl
length-keys (x ∷ m) = omega (arith, length-keys m)

one_if : Bool → ℕ
one_if b = if b then 1 else 0

order-remove_key :
    {K C : Type 0} ⦃e : Eq C⦄ (conv : K → C) (c : C) (ks : List K)
    → map conv (remove_key conv c ks) ≡ erase c (map conv ks)
unfolding remove_key erase
order-remove_key conv c [] = refl
order-remove_key conv c (k ∷ ks) = ground (arith, order-remove_key conv c ks)

module _ {K V C : Type 0} ⦃e : Eq C⦄ where
  -- The comparable keys in the order of insertion.
  abbrev pub order : OrderedMap K V C → List C
  order m = map m.conv m.o

  -- No key is listed twice, and the table binds exactly the listed keys, each once.
  pub record IsConsistent (m : OrderedMap K V C) : Type 0 where
    pub order_unique : Uniq (order m)
    pub table_unique : Uniq (map_keys m.kv)
    pub same_keys : (c : C) → member c (map_keys m.kv) ≡ member c (order m)
    pub same_size : length m.kv ≡ length m.o

  pub new-IsConsistent : (conv : K → C) → IsConsistent (new_with_conversion_func {V = V} conv)
  unfolding new_with_conversion_func
  new-IsConsistent conv = record {
    order_unique = tt;
    table_unique = tt;
    same_keys = λ c. refl;
    same_size = refl;
  }

  pub contains_key-eq-member :
      (m : OrderedMap K V C) (key : K) → contains_key m key ≡ member (m.conv key) (map_keys m.kv)
  unfolding contains_key
  contains_key-eq-member m key = elim (Bool-cases (member (m.conv key) (map_keys m.kv))) [
    | inl here ↦ let (v, p) = lookup-some (m.conv key) m.kv here in rw (p, contains_key, here)
    | inr absent ↦ rw (lookup-none (m.conv key) m.kv absent, contains_key, absent)
  ]

  -- The three parts of a map after `Remove`, with `remove` shut.
  pub order-remove :
      (m : OrderedMap K V C) (key : K) → order (remove m key) ≡ erase (m.conv key) (order m)
  unfolding remove
  order-remove m key = order-remove_key m.conv (m.conv key) m.o

  -- `Remove` keeps the order list and the table of a consistent map consistent.
  pub remove-IsConsistent :
      (m : OrderedMap K V C) (key : K) → IsConsistent m → IsConsistent (remove m key)
  unfolding remove one_if
  remove-IsConsistent m key w =
      let c = m.conv key in
      record {
        order_unique = rw (order-remove_key m.conv c m.o) (erase-Uniq c (order m) w.order_unique);
        table_unique = rw (keys-delete c m.kv) (erase-Uniq c (map_keys m.kv) w.table_unique);
        same_keys = λ d.
            rw (order-remove_key m.conv c m.o, keys-delete c m.kv)
              (ground (
                arith,
                member-erase c d (order m) w.order_unique,
                member-erase c d (map_keys m.kv) w.table_unique,
                w.same_keys d,
              ));
        same_size = omega (
          arith,
          length-keys (delete c m.kv),
          length-keys m.kv,
          w.same_size,
          ap (λ (l : List C). length l) (keys-delete c m.kv),
          ap (λ (l : List C). length l) (order-remove_key m.conv c m.o),
          length-map (remove_key m.conv c m.o) m.conv,
          length-map m.o m.conv,
          length-erase c (order m),
          length-erase c (map_keys m.kv),
          ap one_if (w.same_keys c),
        );
      }

  -- After `Remove` the key is unbound, and every other key reads as before.
  get_ok-remove :
      (m : OrderedMap K V C) (key j : K)
      → IsConsistent m
      → get_ok (remove m key) j ≡ (if m.conv key == m.conv j then none else get_ok m j)
  unfolding get_ok remove
  get_ok-remove m key j w = lookup-delete (m.conv key) (m.conv j) m.kv w.table_unique

  -- The common part of `Set`: a key that is not there goes to the end.
  unfoldable pub insert_new : OrderedMap K V C → K → V → OrderedMap K V C
  insert_new m key value = record m { kv = assign (m.conv key) value m.kv; o = m.o ++ (key ∷ []) }

  pub insert_new-IsConsistent :
      (m : OrderedMap K V C) (key : K) (value : V)
      → IsConsistent m
      → member (m.conv key) (order m) ≡ false
      → IsConsistent (insert_new m key value)
  unfolding insert_new
  insert_new-IsConsistent m key value w absent =
      let c = m.conv key in
      let absent' : member c (map_keys m.kv) ≡ false = w.same_keys c ∙ absent in
      let last : order (insert_new m key value) ≡ order m ++ (c ∷ []) =
        map-append m.conv m.o (key ∷ []) in
      record {
        order_unique = rw last (snoc-Uniq c (order m) w.order_unique absent);
        table_unique =
            rw (keys-assign_new c value m.kv absent')
              (snoc-Uniq c (map_keys m.kv) w.table_unique absent');
        same_keys = λ d.
            rw (last, keys-assign_new c value m.kv absent', member-append d (order m) (c ∷ []))
              (rw (member-append d (map_keys m.kv) (c ∷ [])) (rw (w.same_keys d)));
        same_size = omega (
          arith,
          length-keys (assign c value m.kv),
          length-keys m.kv,
          w.same_size,
          ap (λ (l : List C). length l) (keys-assign_new c value m.kv absent'),
          length-append (map_keys m.kv) (c ∷ []),
          length-append m.o (key ∷ []),
        );
      }
