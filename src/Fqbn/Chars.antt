-- ===== src/Fqbn/Chars.antt =====
-- The characters that the two validation patterns let through: no separator of an FQBN, no space.
use arduino_cli_android.Prelude.{ℕ, Bool, true, not, [], ◌∷◌, ◌≡◌, refl, ◌==◌, nat_eq, all, arith}
use arduino_cli_android.Strings.{Text, lacks, no_space, is_space}
use arduino_cli_android.Fqbn.{is_name_char, is_value_char, matches_name, matches_value}

-- What holds of each character that a test lets through holds of a text that passes it.
pub all_mono :
    (p q : ℕ → Bool)
    → ((x : ℕ) → p x ≡ true → q x ≡ true)
    → (s : Text) → all p s ≡ true
    → all q s ≡ true
all_mono p q f [] h = refl
all_mono p q f (x ∷ s) h = ground (arith, f x, all_mono p q f s)

is_value_char-colon : (x : ℕ) → is_value_char x ≡ true → not (x == b':') ≡ true
unfolding is_value_char
is_value_char-colon x h = ground arith

is_value_char-comma : (x : ℕ) → is_value_char x ≡ true → not (x == b',') ≡ true
unfolding is_value_char
is_value_char-comma x h = ground arith

is_value_char-space : (x : ℕ) → is_value_char x ≡ true → not (is_space x) ≡ true
unfolding is_value_char is_space
is_value_char-space x h = ground arith

is_name_char-equals : (x : ℕ) → is_name_char x ≡ true → not (x == b'=') ≡ true
unfolding is_name_char
is_name_char-equals x h = ground arith

is_name_char-value : (x : ℕ) → is_name_char x ≡ true → is_value_char x ≡ true
unfolding is_value_char
is_name_char-value x h = ground arith

pub value-lacks-colon : (s : Text) → matches_value s ≡ true → lacks b':' s ≡ true
unfolding matches_value lacks
value-lacks-colon = all_mono is_value_char (λ x. not (x == b':')) is_value_char-colon

pub value-lacks-comma : (s : Text) → matches_value s ≡ true → lacks b',' s ≡ true
unfolding matches_value lacks
value-lacks-comma = all_mono is_value_char (λ x. not (x == b',')) is_value_char-comma

pub value-no_space : (s : Text) → matches_value s ≡ true → no_space s ≡ true
unfolding matches_value no_space
value-no_space = all_mono is_value_char (λ x. not (is_space x)) is_value_char-space

pub name-lacks-equals : (s : Text) → matches_name s ≡ true → lacks b'=' s ≡ true
unfolding matches_name lacks
name-lacks-equals = all_mono is_name_char (λ x. not (x == b'=')) is_name_char-equals

-- A name is also a value.
pub name-matches_value : (s : Text) → matches_name s ≡ true → matches_value s ≡ true
unfolding matches_name matches_value
name-matches_value = all_mono is_name_char is_value_char is_name_char-value
