-- ===== src/Fqbn.antt =====
-- pkg/fqbn/fqbn.go: fully qualified board names, vendor:architecture:board[:key=value,…].
pub mod Chars
pub mod Valid
pub mod RoundTrip
pub mod Matching
mod Tests
use arduino_cli_android.Prelude.{
  ℕ, Bool, true, false, not, ◌&&◌, ◌||◌, List, [], ◌∷◌, ◌++◌, Option, none, some, ◌≡◌, refl, ◌==◌,
  list_eq, nat_eq, leb, all, if◌then◌else◌,
}
use arduino_cli_android.Strings.{Text, codes, split, cut, trim_space, is_empty}
use arduino_cli_android.Properties.{PropertiesMap}

-- The errors of `Parse`, with the text that each message quotes.
pub data ParseError : Type 0 where
  not_an_fqbn : Text → ParseError
  empty_board : ParseError
  invalid_field invalid_option invalid_key invalid_value : Text → ParseError

pub data Parsed (A : Type 0) : Type 0 where
  err : ParseError → Parsed A
  ok : A → Parsed A

infixl 5 ◌>>=◌
abbrev pub ◌>>=◌ : {A B : Type 0} (parsed : Parsed A) (next : A → Parsed B) → Parsed B
err e >>= next = err e
ok a >>= next = next a

-- A chain that ends well has a first step that ends well.
pub >>=-eq-ok :
    {A B : Type 0} (parsed : Parsed A) (next : A → Parsed B) {result : B}
    → (parsed >>= next) ≡ ok result
    → (middle : A) × (parsed ≡ ok middle) × (next middle ≡ ok result)
>>=-eq-ok (err e) next h = cc
>>=-eq-ok (ok middle) next h = (middle, refl, h)

-- `fqbnValidationRegex`, `^[a-zA-Z0-9_.-]*$`, and `valueValidationRegex`, which allows `=` as well.
unfoldable pub is_name_char : ℕ → Bool
is_name_char c =
    (leb b'a' c && leb c b'z')
    || ((leb b'A' c && leb c b'Z')
        || ((leb b'0' c && leb c b'9') || (c == b'_' || (c == b'.' || c == b'-'))))

unfoldable pub is_value_char : ℕ → Bool
unfolding is_name_char
is_value_char c = is_name_char c || c == b'='

unfoldable pub matches_name : Text → Bool
matches_name s = all is_name_char s

unfoldable pub matches_value : Text → Bool
matches_value s = all is_value_char s

-- `!hasKey || targetValue != neededValue`; the needed key is bound, since it is one of `AsMap`.
unfoldable pub differs : Option Text → Option Text → Bool
differs none needed = true
differs (some v) none = false
differs (some v) (some needed) = not (v == needed)

module _ (P : PropertiesMap) where
  open P use {Map, new_map, set, get_ok, keys}

  pub record Fqbn : Type 0 where
    pub vendor : Text
    pub architecture : Text
    pub board_id : Text
    pub configs : Map

  -- The tests on a trimmed key and value, and the `Set` that they guard.
  unfoldable pub check_option : Map → Text → Text → Text → Parsed Map
  unfolding matches_name matches_value
  check_option m pair k v =
      if is_empty k
      then err (invalid_option pair)
      else if not (matches_name k)
      then err (invalid_key k)
      else if not (matches_value v)
      then err (invalid_value v)
      else ok (set m k v)

  -- One round of the loop over the options.
  unfoldable pub parse_option : Map → Text → Parsed Map
  unfolding check_option
  parse_option m pair = elim (cut b'=' pair) [
    | none ↦ err (invalid_option pair)
    | some (a, b) ↦ check_option m pair (trim_space a) (trim_space b)
  ]

  unfoldable pub parse_options : Map → List Text → Parsed Map
  unfolding parse_option
  parse_options m [] = ok m
  parse_options m (pair ∷ pairs) = do m' ← parse_option m pair; parse_options m' pairs

  -- The checks of the three fields, in their order, and then the options.
  unfoldable pub parse_fields : Text → Text → Text → Parsed Map → Parsed Fqbn
  unfolding matches_name
  parse_fields v a b options =
      if is_empty b
      then err empty_board
      else if not (matches_name v)
      then err (invalid_field v)
      else if not (matches_name a)
      then err (invalid_field a)
      else if not (matches_name b)
      then err (invalid_field b)
      else options >>= λ m. ok (record { vendor = v; architecture = a; board_id = b; configs = m })

  unfoldable pub parse_parts : Text → List Text → Parsed Fqbn
  unfolding parse_fields parse_options
  parse_parts fqbn_in (v ∷ a ∷ b ∷ []) = parse_fields v a b (ok new_map)
  parse_parts fqbn_in (v ∷ a ∷ b ∷ c ∷ []) =
      parse_fields v a b (parse_options new_map (split b',' c))
  parse_parts fqbn_in _ = err (not_an_fqbn fqbn_in)

  unfoldable pub parse : Text → Parsed Fqbn
  unfolding parse_parts
  parse fqbn_in = parse_parts fqbn_in (split b':' fqbn_in)

  unfoldable pub clone : Fqbn → Fqbn
  clone f = record {
    vendor = f.vendor;
    architecture = f.architecture;
    board_id = f.board_id;
    configs = P.clone f.configs;
  }

  unfoldable pub string_without_config : Fqbn → Text
  string_without_config f = f.vendor ++ (b':' ∷ (f.architecture ++ (b':' ∷ f.board_id)))

  -- `Configs.Get`, which gives the empty string for a missing key.
  unfoldable pub get : Map → Text → Text
  get m k = elim (get_ok m k) [ none ↦ [] | some v ↦ v ]

  -- The loop of `String` over the keys: the separator is a colon first and a comma after it.
  unfoldable pub print_options : ℕ → Map → List Text → Text
  unfolding get
  print_options sep m [] = []
  print_options sep m (k ∷ ks) = sep ∷ (k ++ (b'=' ∷ (get m k ++ print_options b',' m ks)))

  unfoldable pub to_string : Fqbn → Text
  unfolding string_without_config print_options
  to_string f = string_without_config f ++ print_options b':' f.configs (keys f.configs)

  -- The loop of `Match` over the options of the target.
  unfoldable pub match_options : Map → Map → List Text → Bool
  unfolding differs
  match_options m target [] = true
  match_options m target (needed_key ∷ ks) =
      if differs (get_ok m needed_key) (get_ok target needed_key)
      then false
      else match_options m target ks

  unfoldable pub match : Fqbn → Fqbn → Bool
  unfolding string_without_config match_options
  match f target =
      if not (string_without_config f == string_without_config target)
      then false
      else match_options f.configs target.configs (keys target.configs)
