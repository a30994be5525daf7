-- ===== src/Detector/Candidates.antt =====
-- The candidates for a header, before and after one of them is taken out.
use arduino_cli_android.Prelude.{
  Bool, false, List, [], ◌∷◌, ◌==◌, nat_eq, list_eq, any, ◌≡◌, inl, inr, arith, Elem, Elem-append,
  Bool-cases,
}
use arduino_cli_android.Libraries.{Library}
use arduino_cli_android.Libraries.Collection.{contains, remove}
use arduino_cli_android.Detector.{last_of, closed_up}

pub Elem-remove : (libs : List Library) (x lib : Library) → Elem lib (remove libs x) → Elem lib libs
unfolding remove
Elem-remove [] x lib m = m
Elem-remove (y ∷ libs) x lib m = elim (Bool-cases (y.address == x.address)) [
  | inl e ↦ inr (rw (e, remove) at m)
  | inr e ↦ elim (rw (e, remove) at m) [ inl h ↦ inl h | inr h ↦ inr (Elem-remove libs x lib h) ]
]

Elem-last_of : (libs : List Library) (lib : Library) → Elem lib (last_of libs) → Elem lib libs
unfolding last_of
Elem-last_of [] lib m = m
Elem-last_of (x ∷ []) lib m = m
Elem-last_of (x ∷ y ∷ libs) lib m = inr (Elem-last_of (y ∷ libs) lib m)

pub Elem-closed_up :
    (libs : List Library) (x lib : Library) → Elem lib (closed_up libs x) → Elem lib libs
unfolding closed_up
Elem-closed_up libs x lib m = elim (Bool-cases (contains libs x)) [
  | inl e ↦ elim (Elem-append lib (remove libs x) (last_of libs) (rw (e, closed_up) at m)) [
    | inl h ↦ Elem-remove libs x lib h
    | inr h ↦ Elem-last_of libs lib h
  ]
  | inr e ↦ rw (e, closed_up) at m
]

pub any-Elem :
    (test : Library → Bool) (libs : List Library) (lib : Library)
    → any test libs ≡ false
    → Elem lib libs
    → test lib ≡ false
any-Elem test [] lib h m = absurd m
any-Elem test (x ∷ libs) lib h (inl e) = rw e (ground (arith, h))
any-Elem test (x ∷ libs) lib h (inr m) = any-Elem test libs lib (ground (arith, h)) m
