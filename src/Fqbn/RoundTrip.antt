-- ===== src/Fqbn/RoundTrip.antt =====
-- `Parse` reads back what `String` prints.
use arduino_cli_android.Prelude.{
  ℕ, true, false, List, [], ◌∷◌, ◌++◌, map, none, some, ◌≡◌, refl, nat_eq, list_eq, if◌then◌else◌,
  arith, Bool-cases, inl, inr, ◌∙◌, ap, sym, All, Uniq, member, list_beq_iff, append_assoc,
  append-nil, All-of_member, false≢true, Option-cases,
}
use arduino_cli_android.Strings.{
  Text, split, join, is_empty, lacks, split-lacks, split-append, split-join, cut-append,
  trim_space_id,
}
use arduino_cli_android.Properties.{PropertiesMap}
use arduino_cli_android.Fqbn.{
  Fqbn, Parsed, ok, get, matches_name, matches_value, parse, parse_parts, parse_fields,
  parse_options, parse_option, check_option, print_options, to_string, string_without_config,
}
use arduino_cli_android.Fqbn.Chars.{
  value-lacks-colon, value-lacks-comma, value-no_space, name-lacks-equals, name-matches_value,
}
use arduino_cli_android.Fqbn.Valid.{IsValid, HasValidOptions}

pub name-lacks-colon : (s : Text) → matches_name s ≡ true → lacks b':' s ≡ true
name-lacks-colon s h = value-lacks-colon s (name-matches_value s h)

lacks-append : (c : ℕ) (s t : Text) → lacks c s ≡ true → lacks c t ≡ true → lacks c (s ++ t) ≡ true
unfolding lacks
lacks-append c [] t h k = k
lacks-append c (x ∷ s) t h k = ground (arith, lacks-append c s t)

module _ (P : PropertiesMap) where
  open P use {Map, new_map, set, get_ok, keys}

  -- The text of one option.
  abbrev item : Map → Text → Text
  item m k = k ++ (b'=' ∷ get P m k)

  print_options-join :
      (sep : ℕ) (m : Map) (k : Text) (ks : List Text)
      → print_options P sep m (k ∷ ks) ≡ sep ∷ join (b',' ∷ []) (map (item m) (k ∷ ks))
  unfolding print_options join
  print_options-join sep m k [] = simp append-nil
  print_options-join sep m k (j ∷ ks) = rw (print_options-join b',' m j ks) (simp append_assoc)

  print_options-nil : (sep : ℕ) (m : Map) → print_options P sep m [] ≡ []
  unfolding print_options
  print_options-nil sep m = refl

  -- A key and a value that the checks let through.
  abbrev IsOption : Map → Text → Type 0
  IsOption m k = (is_empty k ≡ false) × (matches_name k ≡ true) × (matches_value (get P m k) ≡ true)

  item-lacks :
      (m : Map) (k : Text)
      → IsOption m k
      → (lacks b':' (item m k) ≡ true) × (lacks b',' (item m k) ≡ true)
  unfolding lacks
  item-lacks m k (a, b, c) =
      let v = get P m k in
      let kv = name-matches_value k b in
      (
        lacks-append b':' k (b'=' ∷ v) (value-lacks-colon k kv) (value-lacks-colon v c),
        lacks-append b',' k (b'=' ∷ v) (value-lacks-comma k kv) (value-lacks-comma v c),
      )

  parse_option-item :
      (m₀ m : Map) (k : Text)
      → IsOption m k
      → parse_option P m₀ (item m k) ≡ ok (set m₀ k (get P m k))
  unfolding parse_option check_option
  parse_option-item m₀ m k (a, b, c) =
      rw (cut-append b'=' k (get P m k) (name-lacks-equals k b), parse_option)
        (rw (trim_space_id k (value-no_space k (name-matches_value k b)))
          (rw (trim_space_id (get P m k) (value-no_space (get P m k) c)) (ground (arith, a, b, c))))

  -- The map that the loop builds.
  set_all : Map → Map → List Text → Map
  set_all m₀ m [] = m₀
  set_all m₀ m (k ∷ ks) = set_all (set m₀ k (get P m k)) m ks

  parse_options-items :
      (m₀ m : Map) (ks : List Text)
      → All (IsOption m) ks
      → parse_options P m₀ (map (item m) ks) ≡ ok (set_all m₀ m ks)
  unfolding parse_options set_all
  parse_options-items m₀ m [] h = refl
  parse_options-items m₀ m (k ∷ ks) h =
      rw (parse_option-item m₀ m k h.0) (parse_options-items (set m₀ k (get P m k)) m ks h.1)

  get_ok-set_all :
      (m₀ m : Map) (ks : List Text) (j : Text)
      → get_ok (set_all m₀ m ks) j ≡ (if member j ks then some (get P m j) else get_ok m₀ j)
  unfolding set_all
  get_ok-set_all m₀ m [] j = refl
  get_ok-set_all m₀ m (k ∷ ks) j =
      get_ok-set_all (set m₀ k (get P m k)) m ks j
      ∙ (rw (P.get_ok-set m₀ k (get P m k) j) (ground (arith, list_beq_iff k j)))

  keys-set_all :
      (m₀ m : Map) (ks : List Text)
      → Uniq ks
      → ((k : Text) → member k ks ≡ true → get_ok m₀ k ≡ none)
      → keys (set_all m₀ m ks) ≡ keys m₀ ++ ks
  unfolding set_all
  keys-set_all m₀ m [] u fresh = sym (append-nil (keys m₀))
  keys-set_all m₀ m (k ∷ ks) u fresh =
      let v = get P m k in
      let first : get_ok m₀ k ≡ none = fresh k (ground (arith, list_beq_iff k k)) in
      keys-set_all (set m₀ k v) m ks u.1
        (λ j h. ground (arith, P.get_ok-set m₀ k v j, list_beq_iff k j, fresh j, u.0))
      ∙ (rw (P.keys-set_new m₀ k v first) (append_assoc (keys m₀) (k ∷ []) ks))

  -- The same three names, the same keys in the same order, and the same value at every key.
  pub record SameFqbn (f g : Fqbn P) : Type 0 where
    pub same_vendor : f.vendor ≡ g.vendor
    pub same_architecture : f.architecture ≡ g.architecture
    pub same_board : f.board_id ≡ g.board_id
    pub same_order : keys f.configs ≡ keys g.configs
    pub same_options : (k : Text) → get_ok f.configs k ≡ get_ok g.configs k

  lacks-join :
      (m : Map) (k : Text) (ks : List Text)
      → All (IsOption m) (k ∷ ks)
      → lacks b':' (join (b',' ∷ []) (map (item m) (k ∷ ks))) ≡ true
  unfolding join lacks
  lacks-join m k [] h = (item-lacks m k h.0).0
  lacks-join m k (j ∷ ks) h =
      let rest = join (b',' ∷ []) (map (item m) (j ∷ ks)) in
      lacks-append b':' (item m k) (b',' ∷ rest) (item-lacks m k h.0).0 (lacks-join m j ks h.1)

  items-lack_comma :
      (m : Map) (ks : List Text)
      → All (IsOption m) ks
      → All (λ v. lacks b',' v ≡ true) (map (item m) ks)
  items-lack_comma m [] h = tt
  items-lack_comma m (k ∷ ks) h = ((item-lacks m k h.0).1, items-lack_comma m ks h.1)

  valid_options : (m : Map) → HasValidOptions P m → All (IsOption m) (keys m)
  valid_options m h = All-of_member (IsOption m) (keys m) at_key
    where
      at_key : (k : Text) → member k (keys m) ≡ true → IsOption m k
      at_key k here =
          let (v, p) = P.keys_bound m k here in
          let (a, b, c) = h k v p in (a, b, unfold get in rw (p, get) c)

  parse_fields_valid :
      (f : Fqbn P) (m : Map)
      → IsValid P f
      → parse_fields P f.vendor f.architecture f.board_id (ok m)
        ≡ ok (record {
          vendor = f.vendor;
          architecture = f.architecture;
          board_id = f.board_id;
          configs = m;
        })
  unfolding parse_fields
  parse_fields_valid f m w = rw (w.board_given, w.vendor_valid, w.architecture_valid, w.board_valid)

  -- The parts of a printed FQBN: the three names, and the options if there are any.
  abbrev option_parts : Map → List Text → List Text
  option_parts m [] = []
  option_parts m (k ∷ ks) = join (b',' ∷ []) (map (item m) (k ∷ ks)) ∷ []

  split-tail :
      (b : Text) (m : Map) (ks : List Text)
      → lacks b':' b ≡ true
      → All (IsOption m) ks
      → split b':' (b ++ print_options P b':' m ks) ≡ b ∷ option_parts m ks
  split-tail b m [] hb h = rw (print_options-nil b':' m) (rw (append-nil b) (split-lacks b':' b hb))
  split-tail b m (k ∷ ks) hb h = rw (print_options-join b':' m k ks) (
      split-append b':' b (join (b',' ∷ []) (map (item m) (k ∷ ks))) hb
      ∙ ap (λ (r : List Text). b ∷ r)
          (split-lacks b':' (join (b',' ∷ []) (map (item m) (k ∷ ks))) (lacks-join m k ks h)))

  split-to_string :
      (f : Fqbn P)
      → IsValid P f
      → split b':' (to_string P f)
        ≡ f.vendor ∷ f.architecture ∷ f.board_id ∷ option_parts f.configs (keys f.configs)
  unfolding to_string string_without_config
  split-to_string f w =
      let options = print_options P b':' f.configs (keys f.configs) in
      let tail =
        split-tail f.board_id f.configs (keys f.configs) (name-lacks-colon f.board_id w.board_valid)
          (valid_options f.configs w.options_valid) in
      rw (append_assoc f.vendor (b':' ∷ (f.architecture ++ (b':' ∷ f.board_id))) options) (
        rw (append_assoc f.architecture (b':' ∷ f.board_id) options) (
          split-append b':' f.vendor (f.architecture ++ (b':' ∷ (f.board_id ++ options)))
            (name-lacks-colon f.vendor w.vendor_valid)
          ∙ ap (λ (r : List Text). f.vendor ∷ r)
              (split-append b':' f.architecture (f.board_id ++ options)
                  (name-lacks-colon f.architecture w.architecture_valid)
                ∙ ap (λ (r : List Text). f.architecture ∷ r) tail)))

  -- The map that `Parse` builds from the printed options.
  abbrev rebuilt : Map → Map
  rebuilt m = set_all new_map m (keys m)

  parse_parts-option_parts :
      (s : Text) (f : Fqbn P) (m : Map) (ks : List Text)
      → IsValid P f
      → All (IsOption m) ks
      → parse_parts P s (f.vendor ∷ f.architecture ∷ f.board_id ∷ option_parts m ks)
        ≡ ok (record {
          vendor = f.vendor;
          architecture = f.architecture;
          board_id = f.board_id;
          configs = set_all new_map m ks;
        })
  unfolding parse_parts set_all
  parse_parts-option_parts s f m [] w h = parse_fields_valid f new_map w
  parse_parts-option_parts s f m (k ∷ ks) w h =
      ap (λ (r : Parsed Map). parse_fields P f.vendor f.architecture f.board_id r)
        (ap (λ (l : List Text). parse_options P new_map l)
            (split-join b',' (item m k) (map (item m) ks) (items-lack_comma m (k ∷ ks) h))
          ∙ parse_options-items new_map m (k ∷ ks) h)
      ∙ parse_fields_valid f (set_all new_map m (k ∷ ks)) w

  unbound : (m : Map) (j : Text) → member j (keys m) ≡ false → none ≡ get_ok m j
  unbound m j absent = elim (Option-cases (get_ok m j)) [
    | inl p ↦ sym p
    | inr (v, p) ↦ absurd (false≢true (sym absent ∙ P.keys_all m j v p))
  ]

  same_value : (m : Map) (j : Text) → get_ok (rebuilt m) j ≡ get_ok m j
  unfolding get
  same_value m j = get_ok-set_all new_map m (keys m) j ∙ (elim (Bool-cases (member j (keys m))) [
    | inl here ↦ let (v, p) = P.keys_bound m j here in rw (here, get, p) refl
    | inr absent ↦ rw (absent, P.get_ok-new_map j) (unbound m j absent)
  ])

  -- `Parse` reads what `String` prints of a valid FQBN as an FQBN with the same names, the same
  -- option keys in the same order and the same values.
  pub parse-to_string :
      (f : Fqbn P) → IsValid P f → (g : Fqbn P) × (parse P (to_string P f) ≡ ok g) × SameFqbn g f
  unfolding parse
  parse-to_string f w = (
    record {
      vendor = f.vendor;
      architecture = f.architecture;
      board_id = f.board_id;
      configs = rebuilt f.configs;
    },
    rw (split-to_string f w) (
        parse_parts-option_parts (to_string P f) f f.configs (keys f.configs) w
          (valid_options f.configs w.options_valid)),
    record {
      same_vendor = refl;
      same_architecture = refl;
      same_board = refl;
      same_order =
          keys-set_all new_map f.configs (keys f.configs) (P.keys_unique f.configs)
            (λ k _. P.get_ok-new_map k)
          ∙ (rw P.keys-new_map);
      same_options = same_value f.configs;
    },
  )
