-- ===== src/Filenames.antt =====
-- internal/arduino/utils/filenames.go: the names that are safe for a folder. Code points stand for
-- runes; a rune of more than one byte becomes one underscore, so the result is ASCII.
mod Tests
use arduino_cli_android.Prelude.{
  ℕ, zero, suc, ◌≤◌, Bool, true, false, ◌&&◌, ◌||◌, List, [], ◌∷◌, ◌++◌, ◌≡◌, refl, ◌==◌, nat_eq,
  leb, ltb, if◌then◌else◌, length, take, all, arith, length-take-le, not, Bool-cases, inl, inr,
}
use arduino_cli_android.Strings.{Text}

-- `c` is one of `0-9`, `a-z`, `A-Z`.
unfoldable pub is_alphanumeric : ℕ → Bool
is_alphanumeric c =
    (leb b'0' c && leb c b'9') || ((leb b'a' c && leb c b'z') || (leb b'A' c && leb c b'Z'))

-- A dash or a dot may stand anywhere but first.
unfoldable pub is_kept : Bool → ℕ → Bool
unfolding is_alphanumeric
is_kept first c = is_alphanumeric c || (not first && (c == b'-' || c == b'.'))

unfoldable pub sanitize_chars : Bool → Text → Text
unfolding is_kept
sanitize_chars first [] = []
sanitize_chars first (c ∷ s) = (if is_kept first c then c else b'_') ∷ sanitize_chars false s

unfoldable pub sanitize_name : Text → Text
unfolding sanitize_chars
sanitize_name orig_name =
    let sanitized = sanitize_chars true orig_name in
    if ltb 63 (length sanitized) then take 64 sanitized else sanitized

-- A character of a sanitized name.
unfoldable pub is_safe : ℕ → Bool
unfolding is_alphanumeric
is_safe c = is_alphanumeric c || (c == b'-' || (c == b'.' || c == b'_'))

kept_is_safe : (first : Bool) (c : ℕ) → is_safe (if is_kept first c then c else b'_') ≡ true
unfolding is_safe is_kept
kept_is_safe first c = ground arith

sanitize_chars_safe : (first : Bool) (s : Text) → all is_safe (sanitize_chars first s) ≡ true
unfolding sanitize_chars
sanitize_chars_safe first [] = refl
sanitize_chars_safe first (c ∷ s) = rw (kept_is_safe first c) (sanitize_chars_safe false s)

all-take : (p : ℕ → Bool) (n : ℕ) (s : Text) → all p s ≡ true → all p (take n s) ≡ true
all-take p zero s h = refl
all-take p (suc n) [] h = refl
all-take p (suc n) (x ∷ s) h = ground (arith, all-take p n s)

not_long : (n : ℕ) → ltb 63 n ≡ false → n ≤ 64
not_long n h = ground arith

-- A sanitized name has at most 64 characters, each a letter, a digit, a dash, a dot or an underscore.
pub sanitize_name_safe :
    (s : Text) → (all is_safe (sanitize_name s) ≡ true) × (length (sanitize_name s) ≤ 64)
unfolding sanitize_name
sanitize_name_safe s =
    let chars = sanitize_chars true s in
    elim (Bool-cases (ltb 63 (length chars))) [
      | inl long ↦
          rw long (all-take is_safe 64 chars (sanitize_chars_safe true s), length-take-le 64 chars)
      | inr short ↦ rw short (sanitize_chars_safe true s, not_long (length chars) short)
    ]

kept_again :
    (first : Bool) (c : ℕ)
    → (if is_kept first (if is_kept first c then c else b'_')
        then (if is_kept first c then c else b'_')
        else b'_')
      ≡ (if is_kept first c then c else b'_')
unfolding is_kept
kept_again first c = ground arith

sanitize_chars_again :
    (first : Bool) (s : Text)
    → sanitize_chars first (sanitize_chars first s) ≡ sanitize_chars first s
unfolding sanitize_chars
sanitize_chars_again first [] = refl
sanitize_chars_again first (c ∷ s) = rw (kept_again first c) (rw (sanitize_chars_again false s))

take-sanitize_chars :
    (first : Bool) (n : ℕ) (s : Text)
    → sanitize_chars first (take n s) ≡ take n (sanitize_chars first s)
unfolding sanitize_chars
take-sanitize_chars first zero s = refl
take-sanitize_chars first (suc n) [] = refl
take-sanitize_chars first (suc n) (c ∷ s) = rw (take-sanitize_chars false n s)

take_again : (n : ℕ) (s : Text) → take n (take n s) ≡ take n s
take_again zero s = refl
take_again (suc n) [] = refl
take_again (suc n) (x ∷ s) = rw (take_again n s)

if_same : {A : Type 0} (b : Bool) (x y : A) → x ≡ y → (if b then x else y) ≡ y
if_same true x y e = e
if_same false x y e = refl

-- A sanitized name is its own sanitized name.
sanitize_name_idem : (s : Text) → sanitize_name (sanitize_name s) ≡ sanitize_name s
unfolding sanitize_name
sanitize_name_idem s =
    let chars = sanitize_chars true s in
    elim (Bool-cases (ltb 63 (length chars))) [
      | inl long ↦ rw long (
          rw (take-sanitize_chars true 64 chars) (
            rw (sanitize_chars_again true s) (
              if_same (ltb 63 (length (take 64 chars))) (take 64 (take 64 chars)) (take 64 chars)
                (take_again 64 chars))))
      | inr short ↦ rw short (rw (sanitize_chars_again true s) (rw short))
    ]
