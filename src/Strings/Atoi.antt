-- ===== src/Strings/Atoi.antt =====
-- `strconv.Atoi` on a 64-bit platform.
use arduino_cli_android.Prelude.{
  ℕ, ◌+◌, ◌-◌, ◌*◌, ◌^◌, Bool, true, false, ◌&&◌, [], ◌∷◌, Option, none, some, ◌==◌, nat_eq, leb,
  ltb, if◌then◌else◌,
}
use arduino_cli_android.Strings.Search.{Text}

-- `negsuc n` is -(n + 1).
pub data ℤ : Type 0 where
  pos : ℕ → ℤ
  negsuc : ℕ → ℤ

pub data NumError : Type 0 where
  syntax range : NumError

unfoldable pub is_digit : ℕ → Bool
is_digit c = leb b'0' c && leb c b'9'

abbrev pub uint_limit : ℕ
uint_limit = 2 ^ 64

abbrev pub int_limit : ℕ
int_limit = 2 ^ 63

pub data Scan : Type 0 where
  scanned : ℕ → Scan
  bad : NumError → Scan

-- The digits after the sign; an overflow ends the scan at once.
unfoldable pub scan_digits : ℕ → Text → Scan
unfolding is_digit
scan_digits n [] = scanned n
scan_digits n (c ∷ s) =
    let n' = n * 10 + (c - b'0') in
    let rest = scan_digits n' s in
    if is_digit c then (if ltb n' uint_limit then rest else bad range) else bad syntax

unfoldable pub scan_unsigned : Text → Scan
unfolding scan_digits
scan_unsigned [] = bad syntax
scan_unsigned (c ∷ s) = scan_digits 0 (c ∷ s)

-- On an error the value that comes with it: 0, or the nearest integer in range.
abbrev pub signed : Bool → Scan → ℤ × Option NumError
signed negative (bad syntax) = (pos 0, some syntax)
signed true (bad range) = (negsuc (int_limit - 1), some range)
signed false (bad range) = (pos (int_limit - 1), some range)
signed true (scanned n) =
    if leb n int_limit
    then (if n == 0 then pos 0 else negsuc (n - 1), none)
    else (negsuc (int_limit - 1), some range)
signed false (scanned n) =
    if ltb n int_limit then (pos n, none) else (pos (int_limit - 1), some range)

unfoldable pub atoi : Text → ℤ × Option NumError
unfolding scan_unsigned
atoi [] = (pos 0, some syntax)
atoi (c ∷ s) =
    if c == b'-'
    then signed true (scan_unsigned s)
    else if c == b'+'
    then signed false (scan_unsigned s)
    else signed false (scan_unsigned (c ∷ s))
