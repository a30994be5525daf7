-- ===== src/Properties/Ordered.antt =====
-- The interface of `go-properties-orderedmap` is met by the repository's own ordered map, over texts.
use arduino_cli_android.Prelude.{
  true, List, [], ◌∷◌, ◌++◌, none, some, ◌≡◌, refl, ◌==◌, if◌then◌else◌, list_eq, nat_eq, Uniq,
  member, lookup, lookup-some, lookup-none, ◌∙◌, sym, map, ap, Bool-cases, inl, inr, subst,
  map_keys,
}
use arduino_cli_android.Strings.{Text}
use arduino_cli_android.Properties.{PropertiesMap}
use arduino_cli_android.OrderedMap
use arduino_cli_android.OrderedMap.{OrderedMap, new, new_with_conversion_func}
use arduino_cli_android.OrderedMap.Laws.{IsConsistent, new-IsConsistent}
use arduino_cli_android.OrderedMap.Set.{set-IsConsistent, get_ok-set, order_list-set_new, conv-set}
use arduino_cli_android.OrderedMap.Merge.{
  clone_lem, conv-clone, conv-merge_keys, merge-IsConsistent, newest, get_ok-merge,
}

-- A table and an order of texts that agree; the conversion is the identity.
abbrev pub with_identity : List (Text × Text) → List Text → OrderedMap Text Text Text
with_identity kv o = record { conv = λ k. k; kv = kv; o = o }

pub record TextMap : Type 0 where
  pub kv : List (Text × Text)
  pub o : List Text
  pub consistent : IsConsistent (with_identity kv o)

abbrev pub ordered : TextMap → OrderedMap Text Text Text
ordered m = with_identity m.kv m.o

pub with_identity_id :
    (r : OrderedMap Text Text Text) → r.conv ≡ (λ k. k) → with_identity r.kv r.o ≡ r
with_identity_id r p = λ i. record { conv = sym p i; kv = r.kv; o = r.o }

abbrev pub from_ordered :
    (r : OrderedMap Text Text Text) → r.conv ≡ (λ k. k) → IsConsistent r → TextMap
from_ordered r p w = record {
  kv = r.kv;
  o = r.o;
  consistent = subst IsConsistent (sym (with_identity_id r p)) w;
}

map_id : (xs : List Text) → map (λ k. k) xs ≡ xs
map_id [] = refl
map_id (x ∷ xs) = rw (map_id xs)

module _ (m : TextMap) where
  abbrev pub text_set : Text → Text → TextMap
  text_set k v =
      from_ordered (OrderedMap.set (ordered m) k v) (conv-set (ordered m) k v)
        (set-IsConsistent (ordered m) k v m.consistent)

  abbrev pub text_clone : TextMap
  text_clone =
      from_ordered (OrderedMap.clone [] (ordered m)) (conv-clone [] (ordered m))
        (clone_lem [] (ordered m) [] m.consistent).2

  pub text_get_ok-set :
      (k v j : Text)
      → OrderedMap.get_ok (ordered (text_set k v)) j
        ≡ (if k == j then some v else OrderedMap.get_ok (ordered m) j)
  text_get_ok-set k v j =
      ap (λ (r : OrderedMap Text Text Text). OrderedMap.get_ok r j)
        (with_identity_id (OrderedMap.set (ordered m) k v) (conv-set (ordered m) k v))
      ∙ get_ok-set (ordered m) k j v m.consistent

  pub text_keys-set_new :
      (k v : Text) → OrderedMap.get_ok (ordered m) k ≡ none → (text_set k v).o ≡ m.o ++ (k ∷ [])
  unfolding OrderedMap.get_ok OrderedMap.contains_key
  text_keys-set_new k v p = order_list-set_new (ordered m) k v (rw (p, OrderedMap.contains_key))

  pub text_keys_unique : Uniq m.o
  text_keys_unique = subst Uniq (map_id m.o) m.consistent.order_unique

  same_members : (k : Text) → member k (map_keys m.kv) ≡ member k m.o
  same_members k = m.consistent.same_keys k ∙ ap (λ (l : List Text). member k l) (map_id m.o)

  pub text_keys_bound :
      (k : Text) → member k m.o ≡ true → (v : Text) × (OrderedMap.get_ok (ordered m) k ≡ some v)
  unfolding OrderedMap.get_ok
  text_keys_bound k h = lookup-some k m.kv (same_members k ∙ h)

  pub text_keys_all : (k v : Text) → OrderedMap.get_ok (ordered m) k ≡ some v → member k m.o ≡ true
  unfolding OrderedMap.get_ok
  text_keys_all k v p = elim (Bool-cases (member k m.o)) [
    | inl here ↦ here
    | inr absent ↦ absurd (cc (p, lookup-none k m.kv (same_members k ∙ absent)))
  ]

  pub text_get_ok-clone :
      (k : Text) → OrderedMap.get_ok (ordered text_clone) k ≡ OrderedMap.get_ok (ordered m) k
  text_get_ok-clone k =
      ap (λ (r : OrderedMap Text Text Text). OrderedMap.get_ok r k)
        (with_identity_id (OrderedMap.clone [] (ordered m)) (conv-clone [] (ordered m)))
      ∙ (clone_lem [] (ordered m) k m.consistent).1

  pub text_keys-clone : text_clone.o ≡ m.o
  unfolding OrderedMap.keys
  text_keys-clone = (clone_lem [] (ordered m) [] m.consistent).0

-- `Merge` with one other map.
module _ (m n : TextMap) where
  abbrev pub merged : OrderedMap Text Text Text
  merged = OrderedMap.merge [] (ordered m) (ordered n ∷ [])

  pub conv-merged : merged.conv ≡ (λ k. k)
  unfolding OrderedMap.merge
  conv-merged = conv-merge_keys [] (ordered m) (ordered n) (OrderedMap.keys (ordered n))

  abbrev pub text_merge : TextMap
  text_merge =
      from_ordered merged conv-merged
        (merge-IsConsistent [] (ordered m) (ordered n ∷ []) m.consistent)

  pub text_get_ok-merge :
      (k : Text)
      → OrderedMap.get_ok (ordered text_merge) k
        ≡ newest [] k (OrderedMap.get_ok (ordered m) k) (ordered n ∷ [])
  text_get_ok-merge k =
      ap (λ (r : OrderedMap Text Text Text). OrderedMap.get_ok r k)
        (with_identity_id merged conv-merged)
      ∙ get_ok-merge [] (ordered m) (ordered n ∷ []) k m.consistent ((refl, n.consistent), tt)

abbrev pub start : OrderedMap Text Text Text
start = new_with_conversion_func (λ k. k)

pub conv-start : start.conv ≡ (λ k. k)
unfolding new_with_conversion_func
conv-start = refl

abbrev pub empty_text_map : TextMap
empty_text_map = from_ordered start conv-start (new-IsConsistent (λ k. k))

pub get_ok-empty : (k : Text) → OrderedMap.get_ok (ordered empty_text_map) k ≡ none
unfolding OrderedMap.get_ok new_with_conversion_func lookup
get_ok-empty k = refl

pub keys-empty : empty_text_map.o ≡ []
unfolding new_with_conversion_func
keys-empty = refl

abbrev pub ordered_properties : PropertiesMap
ordered_properties = record {
  Map = TextMap;
  new_map = empty_text_map;
  set = text_set;
  get_ok = λ m k. OrderedMap.get_ok (ordered m) k;
  keys = λ m. m.o;
  clone = text_clone;
  get_ok-new_map = get_ok-empty;
  keys-new_map = keys-empty;
  get_ok-set = text_get_ok-set;
  keys-set_new = text_keys-set_new;
  keys_unique = text_keys_unique;
  keys_bound = text_keys_bound;
  keys_all = text_keys_all;
  get_ok-clone = text_get_ok-clone;
  keys-clone = text_keys-clone;
}
