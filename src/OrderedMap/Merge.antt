-- ===== src/OrderedMap/Merge.antt =====
-- `Merge` and `Clone`: which value wins, which keys are there, and in what order.
use arduino_cli_android.Prelude.{
  true, false, List, [], ◌∷◌, ◌++◌, map, Option, none, some, Eq, ◌==◌, if◌then◌else◌, ◌≡◌, refl,
  arith, lookup, member, Uniq, Bool-cases, inl, inr, ◌∙◌, sym, ap, All, append-nil, append_assoc,
  map_keys, All-map, lookup-some, lookup-none, erase, member-erase, member-append,
}
use arduino_cli_android.OrderedMap.{
  OrderedMap, get_ok, get, contains_key, set, keys, merge, merge_keys, clone,
  new_with_conversion_func,
}
use arduino_cli_android.OrderedMap.Laws.{IsConsistent, order, new-IsConsistent}
use arduino_cli_android.OrderedMap.Set.{
  set-IsConsistent, get_ok-set, conv-set, order_list-set_new, contains_key-eq-order, order-set,
}

over_nothing : {V : Type 0} (o : Option V) → elim o [ none ↦ none | some v ↦ some v ] ≡ o
over_nothing none = refl
over_nothing (some v) = refl

module _ {K V C : Type 0} ⦃e : Eq C⦄ (zero_value : V) where
  pub conv-merge_keys :
      (m source : OrderedMap K V C) (ks : List K)
      → (merge_keys zero_value m source ks).conv ≡ m.conv
  unfolding merge_keys
  conv-merge_keys m source [] = refl
  conv-merge_keys m source (k ∷ ks) =
      conv-merge_keys (set m k (get zero_value source k)) source ks
      ∙ conv-set m k (get zero_value source k)

  merge_keys-IsConsistent :
      (m source : OrderedMap K V C) (ks : List K)
      → IsConsistent m
      → IsConsistent (merge_keys zero_value m source ks)
  unfolding merge_keys
  merge_keys-IsConsistent m source [] w = w
  merge_keys-IsConsistent m source (k ∷ ks) w =
      merge_keys-IsConsistent (set m k (get zero_value source k)) source ks
        (set-IsConsistent m k (get zero_value source k) w)

  -- `Merge` keeps a map consistent, whatever the sources hold.
  pub merge-IsConsistent :
      (m : OrderedMap K V C) (sources : List (OrderedMap K V C))
      → IsConsistent m
      → IsConsistent (merge zero_value m sources)
  unfolding merge
  merge-IsConsistent m [] w = w
  merge-IsConsistent m (s ∷ ss) w =
      merge-IsConsistent (merge_keys zero_value m s (keys s)) ss
        (merge_keys-IsConsistent m s (keys s) w)

  get-same_key :
      (source : OrderedMap K V C) (k j : K)
      → (source.conv k == source.conv j) ≡ true
      → get zero_value source k ≡ get zero_value source j
  unfolding get
  get-same_key source k j h =
      ap (λ (c : C). elim (lookup c source.kv) [ none ↦ zero_value | some v ↦ v ])
        ((e.test_iff (source.conv k) (source.conv j)).0 h)

  -- After the keys `ks` are copied, one of them reads as in the source.
  get_ok-merge_keys :
      (m source : OrderedMap K V C) (ks : List K) (j : K)
      → m.conv ≡ source.conv
      → IsConsistent m
      → get_ok (merge_keys zero_value m source ks) j ≡ (
          if member (source.conv j) (map source.conv ks)
          then some (get zero_value source j)
          else get_ok m j)
  unfolding merge_keys
  get_ok-merge_keys m source [] j q w = refl
  get_ok-merge_keys m source (k ∷ ks) j q w =
      let v = get zero_value source k in
      get_ok-merge_keys (set m k v) source ks j (conv-set m k v ∙ q) (set-IsConsistent m k v w)
      ∙ (rw (get_ok-set m k j v w) (rw q (ground (arith, get-same_key source k j))))

  get_found :
      (source : OrderedMap K V C) (j : K) (v : V)
      → lookup (source.conv j) source.kv ≡ some v
      → get zero_value source j ≡ v
  unfolding get
  get_found source j v p = rw (p, get)

  -- A consistent map binds `j` exactly when its order lists it, and then `Get` gives the value.
  get_ok-eq-get :
      (source : OrderedMap K V C) (j : K)
      → IsConsistent source
      → get_ok source j
        ≡ (if member (source.conv j) (order source) then some (get zero_value source j) else none)
  unfolding get_ok get
  get_ok-eq-get source j w =
      rw (← w.same_keys (source.conv j))
        (elim (Bool-cases (member (source.conv j) (map_keys source.kv))) [
          | inl here ↦
              let (v, p) = lookup-some (source.conv j) source.kv here in
              rw (here, get_found source j v p) p
          | inr absent ↦ rw (absent, lookup-none (source.conv j) source.kv absent)
        ])

  -- The last binding of `j` in the sources, and `old` if none binds it.
  abbrev pub newest : K → Option V → List (OrderedMap K V C) → Option V
  newest j old [] = old
  newest j old (s ∷ ss) = newest j (elim (get_ok s j) [ none ↦ old | some v ↦ some v ]) ss

  -- A source that `Merge` can read: consistent, with the conversion of the target.
  abbrev pub IsSource : OrderedMap K V C → OrderedMap K V C → Type 0
  IsSource m s = (m.conv ≡ s.conv) × IsConsistent s

  get_ok-merge_one :
      (m s : OrderedMap K V C) (j : K)
      → IsConsistent m
      → IsSource m s
      → get_ok (merge_keys zero_value m s (keys s)) j
        ≡ elim (get_ok s j) [ none ↦ get_ok m j | some v ↦ some v ]
  unfolding keys
  get_ok-merge_one m s j w (q, ws) =
      get_ok-merge_keys m s s.o j q w ∙ (elim (Bool-cases (member (s.conv j) (order s))) [
        | inl here ↦ rw (here, get_ok-eq-get s j ws, here)
        | inr absent ↦ rw (absent, get_ok-eq-get s j ws, absent)
      ])

  -- After a merge into a consistent map, a key reads as in the last source that binds it, and as in the
  -- map before where none does; the sources are consistent and have the conversion of the map.
  pub get_ok-merge :
      (m : OrderedMap K V C) (sources : List (OrderedMap K V C)) (j : K)
      → IsConsistent m
      → All (IsSource m) sources
      → get_ok (merge zero_value m sources) j ≡ newest j (get_ok m j) sources
  unfolding merge
  get_ok-merge m [] j w h = refl
  get_ok-merge m (s ∷ ss) j w h =
      let m' = merge_keys zero_value m s (keys s) in
      get_ok-merge m' ss j (merge_keys-IsConsistent m s (keys s) w) (
        All-map (IsSource m) (IsSource m') (λ t r. (conv-merge_keys m s (keys s) ∙ r.0, r.1)) ss
          h.1)
      ∙ ap (λ (d : Option V). newest j d ss) (get_ok-merge_one m s j w h.0)

  fresh_step :
      (m : OrderedMap K V C) (k : K) (v : V) (ks : List K)
      → IsConsistent m
      → member (m.conv k) (map m.conv ks) ≡ false
      → ((c : C) → member c (map m.conv (k ∷ ks)) ≡ true → member c (order m) ≡ false)
      → (c : C) → member c (map m.conv ks) ≡ true
      → member c (order (set m k v)) ≡ false
  fresh_step m k v ks w u fresh c h = rw (order-set m k v w) (
      ground (
        arith,
        fresh c,
        member-erase (m.conv k) c (order m) w.order_unique,
        member-append c (erase (m.conv k) (order m)) (m.conv k ∷ []),
        e.test_iff (m.conv k) c,
      ))

  -- Copying keys that are new and distinct appends them in order.
  list-merge_keys :
      (m source : OrderedMap K V C) (ks : List K)
      → IsConsistent m
      → Uniq (map m.conv ks)
      → ((c : C) → member c (map m.conv ks) ≡ true → member c (order m) ≡ false)
      → (merge_keys zero_value m source ks).o ≡ m.o ++ ks
  unfolding merge_keys
  list-merge_keys m source [] w u fresh = sym (append-nil m.o)
  list-merge_keys m source (k ∷ ks) w u fresh =
      let v = get zero_value source k in
      let m' = set m k v in
      let absent : contains_key m k ≡ false =
        contains_key-eq-order m k w
        ∙ fresh (m.conv k) (ground (arith, e.test_iff (m.conv k) (m.conv k))) in
      list-merge_keys m' source ks (set-IsConsistent m k v w) (rw (conv-set m k v) u.1)
        (λ c h. fresh_step m k v ks w u.0 fresh c (rw (conv-set m k v) at h))
      ∙ (rw (order_list-set_new m k v absent) (append_assoc m.o (k ∷ []) ks))

  -- `Clone` copies the keys in their order, and every key reads as in the original.
  pub clone_lem :
      (m : OrderedMap K V C) (j : K)
      → IsConsistent m
      → (keys (clone zero_value m) ≡ keys m)
        × (get_ok (clone zero_value m) j ≡ get_ok m j)
        × IsConsistent (clone zero_value m)
  unfolding clone keys new_with_conversion_func get_ok lookup
  clone_lem m j w =
      let start = new_with_conversion_func {V = V} m.conv in
      let w' = new-IsConsistent {V = V} m.conv in
      (
        list-merge_keys start m m.o w' w.order_unique (λ c h. refl),
        get_ok-merge_one start m j w' (refl, w) ∙ over_nothing (get_ok m j),
        merge_keys-IsConsistent start m m.o w',
      )

  pub conv-clone : (m : OrderedMap K V C) → (clone zero_value m).conv ≡ m.conv
  unfolding clone new_with_conversion_func keys
  conv-clone m = conv-merge_keys (new_with_conversion_func {V = V} m.conv) m m.o
