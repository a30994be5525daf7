-- ===== src/Fqbn/Valid.antt =====
-- What `Parse` guarantees of the FQBN that it returns, and when it refuses the number of parts.
use arduino_cli_android.Prelude.{
  ℕ, true, false, List, [], ◌∷◌, some, ◌≡◌, refl, nat_eq, list_eq, arith, Option-cases,
  list_beq_iff, subst, inl, inr, ◌↔◌, ◌⊎◌, ◌<◌, length,
}
use arduino_cli_android.Strings.{Text, split, cut, trim_space, is_empty, count, length-split}
use arduino_cli_android.Properties.{PropertiesMap}
use arduino_cli_android.Fqbn.{
  Fqbn, Parsed, ok, err, not_an_fqbn, matches_name, matches_value, parse, parse_parts, parse_fields,
  parse_options, parse_option, check_option, >>=-eq-ok,
}

module _ (P : PropertiesMap) where
  open P use {Map, new_map, set, get_ok, keys, get_ok-new_map, get_ok-set}

  -- Every option has a key that is not empty, and key and value hold allowed characters only.
  abbrev pub HasValidOptions : Map → Type 0
  HasValidOptions m =
      (k v : Text)
      → get_ok m k ≡ some v
      → (is_empty k ≡ false) × (matches_name k ≡ true) × (matches_value v ≡ true)

  pub record IsValid (f : Fqbn P) : Type 0 where
    pub vendor_valid : matches_name f.vendor ≡ true
    pub architecture_valid : matches_name f.architecture ≡ true
    pub board_valid : matches_name f.board_id ≡ true
    pub board_given : is_empty f.board_id ≡ false
    pub options_valid : HasValidOptions f.configs

  set-HasValidOptions :
      (m : Map) (k v : Text)
      → HasValidOptions m
      → is_empty k ≡ false
      → matches_name k ≡ true
      → matches_value v ≡ true
      → HasValidOptions (set m k v)
  set-HasValidOptions m k v h a b c j w p =
      ground (arith, P.get_ok-set m k v j, h j w, list_beq_iff k j)

  check_option-HasValidOptions :
      (m : Map) (pair k v : Text) (m' : Map)
      → HasValidOptions m
      → check_option P m pair k v ≡ ok m'
      → HasValidOptions m'
  unfolding check_option
  check_option-HasValidOptions m pair k v m' h p =
      let (a, b, c, e) = passed in
      subst (λ n. HasValidOptions n) e (set-HasValidOptions m k v h a b c)
    where
      passed :
          (is_empty k ≡ false)
          × (matches_name k ≡ true)
          × (matches_value v ≡ true)
          × (P.set m k v ≡ m')
      passed = ground arith

  parse_option-HasValidOptions :
      (m : Map) (pair : Text) (m' : Map)
      → HasValidOptions m
      → parse_option P m pair ≡ ok m'
      → HasValidOptions m'
  unfolding parse_option
  parse_option-HasValidOptions m pair m' h p = elim (Option-cases (cut b'=' pair)) [
    | inl missing ↦ absurd (cc (rw (missing, parse_option) at p))
    | inr ((a, b), found) ↦
        check_option-HasValidOptions m pair (trim_space a) (trim_space b) m' h
          (rw (found, parse_option) at p)
  ]

  parse_options-HasValidOptions :
      (m : Map) (pairs : List Text) (m' : Map)
      → HasValidOptions m
      → parse_options P m pairs ≡ ok m'
      → HasValidOptions m'
  unfolding parse_options
  parse_options-HasValidOptions m [] m' h p = subst (λ n. HasValidOptions n) (cc) h
  parse_options-HasValidOptions m (pair ∷ pairs) m' h p =
      let (n, q, r) = >>=-eq-ok (parse_option P m pair) (λ n. parse_options P n pairs) p in
      parse_options-HasValidOptions n pairs m' (parse_option-HasValidOptions m pair n h q) r

  parse_fields-IsValid :
      (v a b : Text) (options : Parsed Map) (f : Fqbn P)
      → ((m : Map) → options ≡ ok m → HasValidOptions m)
      → parse_fields P v a b options ≡ ok f
      → IsValid f
  unfolding parse_fields
  parse_fields-IsValid v a b (err e) f h p = ground arith
  parse_fields-IsValid v a b (ok m) f h p = subst IsValid built.4 (record {
    vendor_valid = built.0;
    architecture_valid = built.1;
    board_valid = built.2;
    board_given = built.3;
    options_valid = h m refl;
  })
    where
      built :
          (matches_name v ≡ true)
          × (matches_name a ≡ true)
          × (matches_name b ≡ true)
          × (is_empty b ≡ false)
          × (record { vendor = v; architecture = a; board_id = b; configs = m } ≡ f)
      built = ground arith

  new-HasValidOptions : HasValidOptions new_map
  new-HasValidOptions k v p = absurd (cc (P.get_ok-new_map k))

  parse_parts-IsValid :
      (s : Text) (parts : List Text) (f : Fqbn P) → parse_parts P s parts ≡ ok f → IsValid f
  unfolding parse_parts
  parse_parts-IsValid s (v ∷ a ∷ b ∷ []) f p =
      parse_fields-IsValid v a b (ok new_map) f
        (λ m e. subst (λ n. HasValidOptions n) (cc) new-HasValidOptions) p
  parse_parts-IsValid s (v ∷ a ∷ b ∷ c ∷ []) f p =
      parse_fields-IsValid v a b (parse_options P new_map (split b',' c)) f
        (λ m e. parse_options-HasValidOptions new_map (split b',' c) m new-HasValidOptions e) p
  parse_parts-IsValid s _ f p = absurd (cc p)

  -- An FQBN that `Parse` returns is valid: every field and every option passed its check.
  pub parse-IsValid : (s : Text) (f : Fqbn P) → parse P s ≡ ok f → IsValid f
  unfolding parse
  parse-IsValid s f p = parse_parts-IsValid s (split b':' s) f p

  -- An error of a kind that is not about the number of parts.
  abbrev IsLater : {A : Type 0} → Parsed A → Type 0
  IsLater (err (not_an_fqbn _)) = ⊥
  IsLater _ = Unit

  parse_options-IsLater : (m : Map) (pairs : List Text) → IsLater (parse_options P m pairs)
  unfolding parse_options
  parse_options-IsLater m [] = tt
  parse_options-IsLater m (pair ∷ pairs) = elim (Option-cases (cut b'=' pair)) [
    | inl missing ↦ rw (missing, parse_option) tt
    | inr ((a, b), found) ↦
        let k = trim_space a in
        let v = trim_space b in
        let later = parse_options-IsLater (P.set m k v) pairs in
        rw (found, parse_option) (ground (arith, later))
  ]

  parse_fields-IsLater :
      (v a b : Text) (options : Parsed Map)
      → IsLater options
      → IsLater (parse_fields P v a b options)
  unfolding parse_fields
  parse_fields-IsLater v a b (err (not_an_fqbn _)) h = absurd h
  parse_fields-IsLater v a b options h = ground (arith, h)

  NotThreeOrFour : ℕ → Type 0
  NotThreeOrFour n = (n < 3) ⊎ (4 < n)

  abbrev refused : (A : Type 0) → Text → Parsed A
  refused A s = err (not_an_fqbn s)

  same_refused : {A : Type 0} {s t : Text} → refused A s ≡ refused A t → t ≡ s
  same_refused h = cc h

  refused→IsLater : {A : Type 0} (r : Parsed A) (s : Text) → r ≡ err (not_an_fqbn s) → ¬ IsLater r
  refused→IsLater r s e h = subst IsLater e h

  refused_as : {A : Type 0} {s t : Text} → t ≡ s → refused A s ≡ refused A t
  refused_as h = cc h

  parse_parts-refused :
      (s t : Text) (parts : List Text)
      → (parse_parts P s parts ≡ err (not_an_fqbn t)) ↔ ((t ≡ s) × NotThreeOrFour (length parts))
  unfolding parse_parts NotThreeOrFour
  parse_parts-refused s t [] = (λ h. (same_refused h, inl (omega arith)), λ h. refused_as h.0)
  parse_parts-refused s t (v ∷ []) = (λ h. (same_refused h, inl (omega arith)), λ h. refused_as h.0)
  parse_parts-refused s t (v ∷ a ∷ []) =
      (λ h. (same_refused h, inl (omega arith)), λ h. refused_as h.0)
  parse_parts-refused s t (v ∷ a ∷ b ∷ []) = (
    λ h. absurd (refused→IsLater _ t h (parse_fields-IsLater v a b (ok new_map) tt)),
    λ h. absurd (omega arith),
  )
  parse_parts-refused s t (v ∷ a ∷ b ∷ c ∷ []) = (
    λ h. absurd (
        refused→IsLater _ t h (
          parse_fields-IsLater v a b (parse_options P new_map (split b',' c))
            (parse_options-IsLater new_map (split b',' c)))),
    λ h. absurd (omega arith),
  )
  parse_parts-refused s t (v ∷ a ∷ b ∷ c ∷ d ∷ rest) =
      (λ h. (same_refused h, inr (omega arith)), λ h. refused_as h.0)

  -- `Parse` answers that a text is no FQBN exactly when that is the text it was given, and it has fewer
  -- than two or more than three colons.
  pub parse-not_an_fqbn :
      (s t : Text)
      → (parse P s ≡ err (not_an_fqbn t)) ↔ ((t ≡ s) × ((count b':' s < 2) ⊎ (3 < count b':' s)))
  unfolding parse NotThreeOrFour
  parse-not_an_fqbn s t =
      let (forth, back) = parse_parts-refused s t (split b':' s) in
      let n = length-split b':' s in
      (λ h. ((forth h).0, omega (arith, (forth h).1, n)), λ h. back (h.0, omega (arith, h.1, n)))
