-- ===== src/Config/Access.antt =====
-- What a read of a configuration gives after a write: at the key written, and at the keys apart from it.
use arduino_cli_android.Prelude.{
  List, [], ◌∷◌, Option, none, some, ◌==◌, nat_eq, list_eq, if◌then◌else◌, ◌≡◌, ◌≢◌, ◌⊎◌, refl, sym,
  ap, subst, ◌∙◌, inl, inr, arith, Bool-cases, beq_refl, beq_ne, list_beq_iff,
}
use arduino_cli_android.Strings.{Text}
use arduino_cli_android.Config.Convert.{Leaf}
use arduino_cli_android.Config.{
  Tree, leaf, sub, Entries, end, entry, find_entry, put_entry, drop_entry, get, below, set, remove,
}

-- Two paths part at some key, so that none leads to what the other leads to.
abbrev pub AreApart : List Text → List Text → Type 0
AreApart [] js = ⊥
AreApart (k ∷ ks) [] = ⊥
AreApart (k ∷ ks) (j ∷ js) = (k ≢ j) ⊎ ((k ≡ j) × AreApart ks js)

pub Tree-cases :
    (o : Option Tree)
    → (o ≡ none) ⊎ (((l : Leaf) × (o ≡ some (leaf l))) ⊎ ((m : Entries) × (o ≡ some (sub m))))
Tree-cases none = inl refl
Tree-cases (some (leaf l)) = inr (inl (l, refl))
Tree-cases (some (sub m)) = inr (inr (m, refl))

find-put :
    (k j : Text) (t : Tree) (m : Entries)
    → find_entry j (put_entry k t m) ≡ (if k == j then some t else find_entry j m)
unfolding find_entry put_entry
find-put k j t end = refl
find-put k j t (entry i u m) =
    ground (arith, find-put k j t m, list_beq_iff i k, list_beq_iff k j, list_beq_iff i j)

pub find-put_same : (k : Text) (t : Tree) (m : Entries) → find_entry k (put_entry k t m) ≡ some t
find-put_same k t m = find-put k k t m ∙ rw (beq_refl k) refl

pub find-put_other :
    (k j : Text) (t : Tree) (m : Entries) → k ≢ j → find_entry j (put_entry k t m) ≡ find_entry j m
find-put_other k j t m h = find-put k j t m ∙ rw (beq_ne k j h) refl

find-drop :
    (k j : Text) (m : Entries)
    → find_entry j (drop_entry k m) ≡ (if k == j then none else find_entry j m)
unfolding find_entry drop_entry
find-drop k j end = ground arith
find-drop k j (entry i u m) =
    ground (arith, find-drop k j m, list_beq_iff i k, list_beq_iff k j, list_beq_iff i j)

-- A path is followed below its first key.
pub get_end : (j : Text) (js : List Text) → get (j ∷ js) end ≡ none
unfolding get find_entry
get_end j [] = refl
get_end j (i ∷ js) = refl

pub get-below :
    (k k' : Text) (ks : List Text) (m : Entries)
    → get (k ∷ k' ∷ ks) m ≡ get (k' ∷ ks) (below (find_entry k m))
unfolding get below
get-below k k' ks m = elim (Tree-cases (find_entry k m)) [
  | inl e ↦ rw (e, get, below) (sym (get_end k' ks))
  | inr (inl (l, e)) ↦ rw (e, get, below) (sym (get_end k' ks))
  | inr (inr (m', e)) ↦ rw (e, get, below) refl
]

-- A read looks only at the entry of the first key.
pub get_same_entry :
    (j : Text) (js : List Text) (m m' : Entries)
    → find_entry j m ≡ find_entry j m'
    → get (j ∷ js) m ≡ get (j ∷ js) m'
unfolding get
get_same_entry j [] m m' h = h
get_same_entry j (i ∷ js) m m' h =
    get-below j i js m ∙ (ap (λ o. get (i ∷ js) (below o)) h ∙ sym (get-below j i js m'))

pub get-set_same :
    (k : Text) (ks : List Text) (v : Leaf) (m : Entries)
    → get (k ∷ ks) (set (k ∷ ks) v m) ≡ some (leaf v)
unfolding get set below
get-set_same k [] v m = find-put_same k (leaf v) m
get-set_same k (k' ∷ ks) v m =
    let m' = set (k' ∷ ks) v (below (find_entry k m)) in
    get-below k k' ks (put_entry k (sub m') m)
    ∙ (ap (λ o. get (k' ∷ ks) (below o)) (find-put_same k (sub m') m)
        ∙ get-set_same k' ks v (below (find_entry k m)))

pub get-set_apart :
    (ks js : List Text) (v : Leaf) (m : Entries) → AreApart ks js → get js (set ks v m) ≡ get js m
unfolding set below
get-set_apart [] js v m h = absurd h
get-set_apart (k ∷ ks) [] v m h = absurd h
get-set_apart (k ∷ []) (j ∷ js) v m (inl h) =
    get_same_entry j js (put_entry k (leaf v) m) m (find-put_other k j (leaf v) m h)
get-set_apart (k ∷ k' ∷ ks) (j ∷ js) v m (inl h) =
    let t = sub (set (k' ∷ ks) v (below (find_entry k m))) in
    get_same_entry j js (put_entry k t m) m (find-put_other k j t m h)
get-set_apart (k ∷ []) (j ∷ js) v m (inr (e, h)) = absurd h
get-set_apart (k ∷ k' ∷ ks) (j ∷ []) v m (inr (e, h)) = absurd h
get-set_apart (k ∷ k' ∷ ks) (j ∷ j' ∷ js) v m (inr (e, h)) =
    let m' = set (k' ∷ ks) v (below (find_entry k m)) in
    rw (← e) (
      get-below k j' js (put_entry k (sub m') m)
      ∙ (ap (λ o. get (j' ∷ js) (below o)) (find-put_same k (sub m') m)
          ∙ (get-set_apart (k' ∷ ks) (j' ∷ js) v (below (find_entry k m)) h
              ∙ sym (get-below k j' js m))))

-- Below the path that is removed nothing changes but what it leads to.
remove-cases :
    (k k' : Text) (ks : List Text) (m : Entries)
    → (remove (k ∷ k' ∷ ks) m ≡ m)
      ⊎ ((m' : Entries) × (find_entry k m ≡ some (sub m'))
          × (remove (k ∷ k' ∷ ks) m ≡ put_entry k (sub (remove (k' ∷ ks) m')) m))
unfolding remove
remove-cases k k' ks m = elim (Tree-cases (find_entry k m)) [
  | inl e ↦ inl (rw (e, remove) refl)
  | inr (inl (l, e)) ↦ inl (rw (e, remove) refl)
  | inr (inr (m', e)) ↦ inr (m', e, rw (e, remove) refl)
]

find-drop_same : (k : Text) (m : Entries) → find_entry k (drop_entry k m) ≡ none
find-drop_same k m = find-drop k k m ∙ rw (beq_refl k) refl

find-drop_other :
    (k j : Text) (m : Entries) → k ≢ j → find_entry j (drop_entry k m) ≡ find_entry j m
find-drop_other k j m h = find-drop k j m ∙ rw (beq_ne k j h) refl

get_absent :
    (j : Text) (js : List Text) (m : Entries) → find_entry j m ≡ none → get (j ∷ js) m ≡ none
unfolding find_entry
get_absent j js m h = get_same_entry j js m end h ∙ get_end j js

pub get_into :
    (k j : Text) (js : List Text) (m r : Entries)
    → get (k ∷ j ∷ js) (put_entry k (sub r) m) ≡ get (j ∷ js) r
unfolding below
get_into k j js m r =
    get-below k j js (put_entry k (sub r) m)
    ∙ ap (λ o. get (j ∷ js) (below o)) (find-put_same k (sub r) m)

pub get_through :
    (k j : Text) (js : List Text) (m r : Entries)
    → find_entry k m ≡ some (sub r)
    → get (k ∷ j ∷ js) m ≡ get (j ∷ js) r
unfolding below
get_through k j js m r e = get-below k j js m ∙ ap (λ o. get (j ∷ js) (below o)) e

pub get-remove_same :
    (k : Text) (ks : List Text) (m : Entries) → get (k ∷ ks) (remove (k ∷ ks) m) ≡ none
unfolding remove get below
get-remove_same k [] m = find-drop_same k m
get-remove_same k (k' ∷ ks) m = elim (Tree-cases (find_entry k m)) [
  | inl e ↦ rw (e, remove) (get_absent k (k' ∷ ks) m e)
  | inr (inl (l, e)) ↦ rw (e, remove) (get-below k k' ks m ∙ rw (e, below) (get_end k' ks))
  | inr (inr (r, e)) ↦
      rw (e, remove) (get_into k k' ks m (remove (k' ∷ ks) r) ∙ get-remove_same k' ks r)
]

pub get-remove_apart :
    (ks js : List Text) (m : Entries) → AreApart ks js → get js (remove ks m) ≡ get js m
unfolding remove
get-remove_apart [] js m h = absurd h
get-remove_apart (k ∷ ks) [] m h = absurd h
get-remove_apart (k ∷ []) (j ∷ js) m (inl h) =
    get_same_entry j js (drop_entry k m) m (find-drop_other k j m h)
get-remove_apart (k ∷ k' ∷ ks) (j ∷ js) m (inl h) = elim (remove-cases k k' ks m) [
  | inl e ↦ rw e refl
  | inr (r, e, q) ↦
      let t = sub (remove (k' ∷ ks) r) in
      rw q (get_same_entry j js (put_entry k t m) m (find-put_other k j t m h))
]
get-remove_apart (k ∷ []) (j ∷ js) m (inr (e, h)) = absurd h
get-remove_apart (k ∷ k' ∷ ks) (j ∷ []) m (inr (e, h)) = absurd h
get-remove_apart (k ∷ k' ∷ ks) (j ∷ j' ∷ js) m (inr (e, h)) =
    rw (← e) (elim (remove-cases k k' ks m) [
      | inl q ↦ rw q refl
      | inr (r, f, q) ↦ rw q (
          get_into k j' js m (remove (k' ∷ ks) r)
          ∙ (get-remove_apart (k' ∷ ks) (j' ∷ js) r h ∙ sym (get_through k j' js m r f)))
    ])

-- What is found after a removal was there before, or was a map there.
abbrev pub WasThere : List Text → Entries → Tree → Type 0
WasThere js m t = (get js m ≡ some t) ⊎ ((r : Entries) × (get js m ≡ some (sub r)))

WasThere-within :
    (k : Text) (ks js : List Text) (m r : Entries) (t : Tree)
    → find_entry k m ≡ some (sub r)
    → ((is : List Text) (t : Tree) → get is (remove ks r) ≡ some t → WasThere is r t)
    → get (k ∷ js) (put_entry k (sub (remove ks r)) m) ≡ some t
    → WasThere (k ∷ js) m t
unfolding get
WasThere-within k ks [] m r t e rest h = inr (r, e)
WasThere-within k ks (j ∷ js) m r t e rest h =
    elim (rest (j ∷ js) t (sym (get_into k j js m (remove ks r)) ∙ h)) [
      | inl a ↦ inl (get_through k j js m r e ∙ a)
      | inr (r', b) ↦ inr (r', get_through k j js m r e ∙ b)
    ]

pub WasThere-remove :
    (ks js : List Text) (m : Entries) (t : Tree) → get js (remove ks m) ≡ some t → WasThere js m t
unfolding remove get
WasThere-remove [] js m t h = inl h
WasThere-remove (k ∷ ks) [] m t h = cc
WasThere-remove (k ∷ []) (j ∷ js) m t h = elim (Bool-cases (k == j)) [
  | inl e ↦
      let gone : find_entry j (drop_entry k m) ≡ none = find-drop k j m ∙ rw e refl in
      cc (get_absent j js (drop_entry k m) gone, h)
  | inr e ↦ inl (sym (get_same_entry j js (drop_entry k m) m (find-drop k j m ∙ rw e refl)) ∙ h)
]
WasThere-remove (k ∷ k' ∷ ks) (j ∷ js) m t h = elim (remove-cases k k' ks m) [
  | inl e ↦ inl (rw e at h)
  | inr (r, e, q) ↦ elim (Bool-cases (k == j)) [
    | inl same ↦
        let is_k = (list_beq_iff k j).0 same in
        let written = put_entry k (sub (remove (k' ∷ ks) r)) m in
        let h' : get (j ∷ js) written ≡ some t = rw q at h in
        subst (λ i. WasThere (i ∷ js) m t) is_k
          (WasThere-within k (k' ∷ ks) js m r t e (λ is t. WasThere-remove (k' ∷ ks) is r t)
            (subst (λ i. get (i ∷ js) written ≡ some t) (sym is_k) h'))
    | inr other ↦
        let u = sub (remove (k' ∷ ks) r) in
        inl (
          sym (get_same_entry j js (put_entry k u m) m (find-put k j u m ∙ rw other refl))
          ∙ (rw q at h))
  ]
]
