-- ===== src/Packages/Options.antt =====
-- What `GetBuildProperties` of board.go promises: the options of the board and of the FQBN, and the properties
-- that come of them.
use arduino_cli_android.Prelude.{
  true, false, List, [], ◌∷◌, ◌++◌, Option, none, some, ◌==◌, nat_eq, list_eq, if◌then◌else◌,
  lookup, member, ◌≡◌, ◌≢◌, ◌⊎◌, refl, sym, ap, subst, ◌∙◌, inl, inr, Elem, Bool-cases,
  Option-cases, list_beq_iff,
}
use arduino_cli_android.Strings.{Text, codes, is_empty}
use arduino_cli_android.Properties.{PropertiesMap}
use arduino_cli_android.Fqbn.{Fqbn, to_string}
use arduino_cli_android.Packages.Boards.{
  Board, Built, built, entries_of, add_options, base_properties, get_build_properties,
}

abbrev pub first_of : Option Text → Option Text → Option Text
first_of (some v) o = some v
first_of none o = o

same_some : {A : Type 0} {a b : A} → some a ≡ some b → a ≡ b
same_some h = cc h

abbrev with_properties : (P : PropertiesMap) → P.Map → Built P
with_properties P m = built m

same_built : (P : PropertiesMap) {m n : P.Map} → with_properties P m ≡ with_properties P n → m ≡ n
same_built P h = cc h

module _ (P : PropertiesMap) where
  entry_bound :
      (m : P.Map) (ks : List Text) (x : Text × Text)
      → Elem x (entries_of P m ks)
      → P.get_ok m x.0 ≡ some x.1
  unfolding entries_of
  entry_bound m [] x h = absurd h
  entry_bound m (k ∷ ks) x h = elim (Option-cases (P.get_ok m k)) [
    | inl e ↦ entry_bound m ks x (rw (e, entries_of) at h)
    | inr (v, e) ↦
        let h' : Elem x ((k, v) ∷ entries_of P m ks) = rw (e, entries_of) at h in
        elim h' [
          | inl q ↦ subst (λ (y : Text × Text). P.get_ok m y.0 ≡ some y.1) (sym q) e
          | inr q ↦ entry_bound m ks x q
        ]
  ]

  entry_there :
      (m : P.Map) (ks : List Text) (k v : Text)
      → member k ks ≡ true
      → P.get_ok m k ≡ some v
      → Elem (k, v) (entries_of P m ks)
  unfolding entries_of
  entry_there m [] k v h e = cc h
  entry_there m (j ∷ ks) k v h e = elim (Bool-cases (j == k)) [
    | inl same ↦
        let is_k = (list_beq_iff j k).0 same in
        subst (λ i. Elem (k, v) (entries_of P m (i ∷ ks))) (sym is_k)
          (rw (e, entries_of) (inl refl))
    | inr other ↦
        let rest = entry_there m ks k v (rw other at h) e in
        elim (Option-cases (P.get_ok m j)) [
          | inl n ↦ rw (n, entries_of) rest
          | inr (w, s) ↦ rw (s, entries_of) (inr rest)
        ]
  ]

  module _ (b : Board P) where
    -- The option and its value are those of a menu of the board.
    abbrev pub IsKnown : Text × Text → Type 0
    IsKnown x =
        (is_empty x.0 ≡ false)
        × (lookup x.0 b.config_options ≢ none)
        × (lookup (x.0 ++ (codes "=" ++ x.1)) b.config_option_properties ≢ none)

    -- The properties are those of an option that is chosen.
    abbrev pub Gives : (Text × Text → Type 0) → P.Map → Type 0
    Gives chosen props =
        (x : Text × Text) × chosen x
        × (lookup (x.0 ++ (codes "=" ++ x.1)) b.config_option_properties ≡ some props)

    -- The key has the value that a chosen option gives it, or the value from before if none gives it one.
    abbrev pub IsSettled : (Text × Text → Type 0) → Option Text → P.Map → Text → Type 0
    IsSettled chosen before m key =
        ((props : P.Map) × Gives chosen props
          × (P.get_ok props key ≢ none)
          × (P.get_ok m key ≡ P.get_ok props key))
        ⊎ (((props : P.Map) → Gives chosen props → P.get_ok props key ≡ none)
            × (P.get_ok m key ≡ before))

    IsKnown-cons :
        (x : Text × Text) (es : List (Text × Text))
        → IsKnown x
        → ((y : Text × Text) → Elem y es → IsKnown y)
        → (y : Text × Text) → Elem y (x ∷ es)
        → IsKnown y
    IsKnown-cons x es here rest y (inl e) = subst IsKnown (sym e) here
    IsKnown-cons x es here rest y (inr m) = rest y m

    module _ (upper : Text → Text) (fqbn : Fqbn P) where
      -- The options of the FQBN, and the defaults of the board where it has none.
      abbrev pub IsChosen : Text × Text → Type 0
      IsChosen x = first_of (P.get_ok fqbn.configs x.0) (P.get_ok b.default_config x.0) ≡ some x.1

      -- The properties of the board, and the two that are set whatever it says.
      abbrev pub board_property : Text → Option Text
      board_property key =
          if codes "build.arch" == key
          then some (upper b.architecture)
          else if codes "build.fqbn" == key
          then some (to_string P fqbn)
          else P.get_ok b.properties key

    -- `merge_law` is what the package documents of `Merge`: the values of the second map replace those of the first.
    module _ (merge : P.Map → P.Map → P.Map)
        (merge_law : (m n : P.Map) (k : Text)
          → P.get_ok (merge m n) k ≡ first_of (P.get_ok n k) (P.get_ok m k))
        (upper : Text → Text) where
      IsSettled-cons :
          (x : Text × Text) (es : List (Text × Text)) (props before m : P.Map) (key : Text)
          → lookup (x.0 ++ (codes "=" ++ x.1)) b.config_option_properties ≡ some props
          → IsSettled (λ y. Elem y es) (P.get_ok (merge before props) key) m key
          → IsSettled (λ y. Elem y (x ∷ es)) (P.get_ok before key) m key
      IsSettled-cons x es props before m key l (inl (props', (y, given, l'), bound, e)) =
          inl (props', (y, inr given, l'), bound, e)
      IsSettled-cons x es props before m key l (inr (nothing, e)) =
          let law = merge_law before props key in
          elim (Option-cases (P.get_ok props key)) [
            | inl n ↦ inr (
              λ props' (y, given, l'). elim given [
                | inl q ↦
                    let same = same_some (
                      sym l
                      ∙ subst
                          (λ (z : Text × Text).
                            lookup (z.0 ++ (codes "=" ++ z.1)) b.config_option_properties
                            ≡ some props')
                          q l') in
                    ap (λ n'. P.get_ok n' key) (sym same) ∙ n
                | inr q ↦ nothing props' (y, q, l')
              ],
              e ∙ (law ∙ rw n refl),
            )
            | inr (w, s) ↦
                inl (props, (x, inl refl, l), λ q. some_none (sym s ∙ q), e ∙ (law ∙ rw s refl))
          ]
        where
          some_none : {w : Text} → some w ≢ none
          some_none q = cc q

      -- The loop over the options, from the properties that it starts with.
      add_options-all :
          (before m : P.Map) (es : List (Text × Text))
          → add_options P merge upper b before es ≡ built m
          → ((x : Text × Text) → Elem x es → IsKnown x)
            × ((key : Text) → IsSettled (λ x. Elem x es) (P.get_ok before key) m key)
      unfolding add_options
      add_options-all before m [] h = (
        λ x q. absurd q,
        λ key. inr (λ props (x, q, l). absurd q, ap (λ n. P.get_ok n key) (sym (same_built P h))),
      )
      add_options-all before m ((option, value) ∷ es) h = elim (Bool-cases (is_empty option)) [
        | inl e ↦ let h' = rw (e, add_options) at h in cc h'
        | inr given ↦ elim (Option-cases (lookup option b.config_options)) [
          | inl n ↦ let h' = rw (given, n, add_options) at h in cc h'
          | inr (label, k) ↦
              elim (Option-cases
                (lookup (option ++ (codes "=" ++ value)) b.config_option_properties)) [
                  | inl n ↦ let h' = rw (given, k, n, add_options) at h in cc h'
                  | inr (props, l) ↦
                      let (known, settled) =
                        add_options-all (merge before props) m es
                          (rw (given, k, l, add_options) at h) in
                      (
                        IsKnown-cons (option, value) es
                            (given, λ q. some_none (sym k ∙ q), λ q. some_none (sym l ∙ q)) known,
                        λ key. IsSettled-cons (option, value) es props before m key l (settled key),
                      )
                ]
        ]
      ]
        where
          some_none : {A : Type 0} {w : A} → some w ≢ none
          some_none q = cc q

      module _ (fqbn : Fqbn P) where
        base_properties-value :
            (key : Text)
            → P.get_ok (base_properties P merge upper b fqbn) key ≡ board_property upper fqbn key
        unfolding base_properties
        base_properties-value key =
            let with_fqbn = P.set (P.clone b.properties) (codes "build.fqbn") (to_string P fqbn) in
            P.get_ok-set with_fqbn (codes "build.arch") (upper b.architecture) key
            ∙ rw (P.get_ok-set (P.clone b.properties) (codes "build.fqbn") (to_string P fqbn) key)
                (rw (P.get_ok-clone b.properties key) refl)

        abbrev config : P.Map
        config = merge (P.clone b.default_config) fqbn.configs

        config-value :
            (k : Text)
            → P.get_ok config k ≡ first_of (P.get_ok fqbn.configs k) (P.get_ok b.default_config k)
        config-value k =
            merge_law (P.clone b.default_config) fqbn.configs k
            ∙ ap (first_of (P.get_ok fqbn.configs k)) (P.get_ok-clone b.default_config k)

        entry→chosen :
            (x : Text × Text) → Elem x (entries_of P config (P.keys config)) → IsChosen upper fqbn x
        entry→chosen x q = sym (config-value x.0) ∙ entry_bound config (P.keys config) x q

        chosen→entry :
            (x : Text × Text) → IsChosen upper fqbn x → Elem x (entries_of P config (P.keys config))
        chosen→entry x c =
            let bound = config-value x.0 ∙ c in
            entry_there config (P.keys config) x.0 x.1 (P.keys_all config x.0 x.1 bound) bound

        settle :
            (m : P.Map) (key : Text)
            → IsSettled
                (λ x. Elem x (entries_of P config (P.keys config)))
                (P.get_ok (base_properties P merge upper b fqbn) key)
                m
                key
            → IsSettled (IsChosen upper fqbn) (board_property upper fqbn key) m key
        settle m key (inl (props, (x, q, l), bound, e)) =
            inl (props, (x, entry→chosen x q, l), bound, e)
        settle m key (inr (nothing, e)) = inr (
          λ props (x, q, l). nothing props (x, chosen→entry x q, l),
          e ∙ base_properties-value key,
        )

        -- Where there are build properties, every option is known, and every key is settled.
        pub get_build_properties-all :
            (m : P.Map)
            → get_build_properties P merge upper b fqbn ≡ built m
            → ((x : Text × Text) → IsChosen upper fqbn x → IsKnown x)
              × ((key : Text)
                  → IsSettled (IsChosen upper fqbn) (board_property upper fqbn key) m key)
        unfolding get_build_properties
        get_build_properties-all m h =
            let (known, settled) =
              add_options-all (base_properties P merge upper b fqbn) m
                (entries_of P config (P.keys config)) h in
            (λ x c. known x (chosen→entry x c), λ key. settle m key (settled key))
