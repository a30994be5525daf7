-- ===== src/Strings/Search.antt =====
-- `strings.HasPrefix`, `HasSuffix`, `Index`, `Contains`, `Count`, `ReplaceAll`, `ToLower` (of ASCII).
use Prim.Native.Char.{code}
use Prim.Native.String.{String}
use mathlib.Core.Option
use mathlib.Core.List.{reverse}
use arduino_cli_android.Prelude.{
  ℕ, zero, suc, ◌+◌, ◌-◌, Bool, true, false, ◌&&◌, List, [], ◌∷◌, ◌++◌, map, Option, none, some,
  ◌≡◌, refl, length, take, drop, ◌==◌, nat_eq, leb, if◌then◌else◌, arith, nat_beq_iff, &&_iff,
  false≢true,
}

abbrev pub Text : Type 0
Text = List ℕ

-- The code points of a literal.
abbrev pub codes : String → Text
codes String.[] = []
codes (String.◌∷◌ c s) = code c ∷ codes s

abbrev pub is_empty {ℓ} : {A : Type ℓ} → List A → Bool
is_empty [] = true
is_empty (x ∷ xs) = false

abbrev pub is_some {ℓ} : {A : Type ℓ} → Option A → Bool
is_some none = false
is_some (some a) = true

unfoldable pub has_prefix : Text → Text → Bool
has_prefix [] s = true
has_prefix (p ∷ ps) [] = false
has_prefix (p ∷ ps) (x ∷ s) = x == p && has_prefix ps s

-- Arguments are in the model's order everywhere: the pattern first, then the text.
unfoldable pub has_suffix : Text → Text → Bool
unfolding has_prefix
has_suffix p s = has_prefix (reverse p) (reverse s)

-- The position of the first occurrence; Go's -1 is `none`.
unfoldable pub index : Text → Text → Option ℕ
unfolding has_prefix
index p [] = if is_empty p then some 0 else none
index p (x ∷ s) =
    let rest = index p s in if has_prefix p (x ∷ s) then some 0 else Option.map suc rest

unfoldable pub contains : Text → Text → Bool
unfolding index
contains p s = is_some (index p s)

-- `strings.LastIndex` of one character.
unfoldable pub last_index : ℕ → Text → Option ℕ
last_index c [] = none
last_index c (x ∷ s) = elim (last_index c s) [
  | some i ↦ some (suc i)
  | none ↦ if x == c then some 0 else none
]

-- `strings.Count` of one character.
unfoldable pub count : ℕ → Text → ℕ
count c [] = 0
count c (x ∷ s) = (if x == c then 1 else 0) + count c s

-- `strings.ReplaceAll` of a non-empty pattern: after a match its other characters are passed over.
unfoldable pub replace_from : Text → Text → ℕ → Text → Text
unfolding has_prefix
replace_from old new skip [] = []
replace_from old new (suc skip) (x ∷ s) = replace_from old new skip s
replace_from old new zero (x ∷ s) =
    let matched = new ++ replace_from old new (length old - 1) s in
    let other = x ∷ replace_from old new zero s in if has_prefix old (x ∷ s) then matched else other

unfoldable pub replace_all : Text → Text → Text → Text
unfolding replace_from
replace_all old new s = replace_from old new zero s

unfoldable pub trim_prefix : Text → Text → Text
unfolding has_prefix
trim_prefix p s = if has_prefix p s then drop (length p) s else s

unfoldable pub trim_suffix : Text → Text → Text
unfolding has_suffix
trim_suffix p s = if has_suffix p s then take (length s - length p) s else s

-- `strings.ToLower` on ASCII.
unfoldable pub lower_char : ℕ → ℕ
lower_char c = if leb b'A' c && leb c b'Z' then c + 32 else c

unfoldable pub to_lower : Text → Text
unfolding lower_char
to_lower s = map lower_char s

pub has_prefix-append : (p s : Text) → has_prefix p (p ++ s) ≡ true
unfolding has_prefix
has_prefix-append [] s = refl
has_prefix-append (x ∷ p) s = ground (arith, nat_beq_iff x x, has_prefix-append p s)

-- A prefix is what the text begins with.
pub has_prefix-split : (p s : Text) → has_prefix p s ≡ true → (r : Text) × (s ≡ p ++ r)
unfolding has_prefix
has_prefix-split [] s h = (s, refl)
has_prefix-split (x ∷ p) [] h = absurd (false≢true h)
has_prefix-split (x ∷ p) (y ∷ s) h =
    let parts = (&&_iff (y == x) (has_prefix p s)).0 h in
    let (r, e) = has_prefix-split p s parts.1 in (r, cc ((nat_beq_iff y x).0 parts.0))
