-- ===== src/Fqbn/Matching.antt =====
-- `Match`: the same board, and every option of the target set to the same value.
use arduino_cli_android.Prelude.{
  true, false, List, [], ◌∷◌, ◌++◌, Option, none, some, ◌≡◌, refl, nat_eq, list_eq, list_beq_iff,
  beq_refl, arith, ◌∙◌, ap, sym, All, member, ◌↔◌, All-of_member, All-elem, member_iff,
}
use arduino_cli_android.Strings.{Text, split, split-append, split-lacks}
use arduino_cli_android.Properties.{PropertiesMap}
use arduino_cli_android.Fqbn.{Fqbn, differs, match, match_options, string_without_config}
use arduino_cli_android.Fqbn.RoundTrip.{name-lacks-colon}
use arduino_cli_android.Fqbn.Valid.{IsValid}

differs-some : (o : Option Text) (v : Text) → (differs o (some v) ≡ false) ↔ (o ≡ some v)
unfolding differs
differs-some none v = (λ h. cc, λ h. cc)
differs-some (some w) v =
    (λ h. ground (arith, list_beq_iff w v), λ h. ground (arith, list_beq_iff w v))

module _ (P : PropertiesMap) where
  open P use {Map, get_ok, keys}

  -- `f` has the names of the target and every option of it.
  pub record Provides (f target : Fqbn P) : Type 0 where
    pub vendor_equal : f.vendor ≡ target.vendor
    pub architecture_equal : f.architecture ≡ target.architecture
    pub board_equal : f.board_id ≡ target.board_id
    pub options_included :
        (k v : Text) → get_ok target.configs k ≡ some v → get_ok f.configs k ≡ some v

  abbrev Included : Map → Map → Text → Type 0
  Included m target k = (v : Text) → get_ok target k ≡ some v → get_ok m k ≡ some v

  Included-at :
      (m target : Map) (k : Text)
      → differs (get_ok m k) (get_ok target k) ≡ false
      → Included m target k
  Included-at m target k h v p = (differs-some (get_ok m k) v).0 (rw p at h)

  match_options_sound :
      (m target : Map) (ks : List Text)
      → match_options P m target ks ≡ true
      → All (Included m target) ks
  unfolding match_options
  match_options_sound m target [] h = tt
  match_options_sound m target (k ∷ ks) h = (
    Included-at m target k (unfold differs in ground arith),
    match_options_sound m target ks (ground arith),
  )

  match_options_complete :
      (m target : Map) (ks : List Text)
      → All (λ k. differs (get_ok m k) (get_ok target k) ≡ false) ks
      → match_options P m target ks ≡ true
  unfolding match_options
  match_options_complete m target [] h = refl
  match_options_complete m target (k ∷ ks) h = rw h.0 (match_options_complete m target ks h.1)

  abbrev names : Fqbn P → List Text
  names f = f.vendor ∷ f.architecture ∷ f.board_id ∷ []

  split-names : (f : Fqbn P) → IsValid P f → split b':' (string_without_config P f) ≡ names f
  unfolding string_without_config
  split-names f w =
      split-append b':' f.vendor (f.architecture ++ (b':' ∷ f.board_id))
        (name-lacks-colon f.vendor w.vendor_valid)
      ∙ ap (λ (r : List Text). f.vendor ∷ r)
          (split-append b':' f.architecture f.board_id
              (name-lacks-colon f.architecture w.architecture_valid)
            ∙ ap (λ (r : List Text). f.architecture ∷ r)
                (split-lacks b':' f.board_id (name-lacks-colon f.board_id w.board_valid)))

  same_names :
      (f g : Fqbn P)
      → IsValid P f
      → IsValid P g
      → string_without_config P f ≡ string_without_config P g
      → (f.vendor ≡ g.vendor) × (f.architecture ≡ g.architecture) × (f.board_id ≡ g.board_id)
  same_names f g wf wg e =
      let p : names f ≡ names g =
        sym (split-names f wf) ∙ (ap (λ (s : Text). split b':' s) e ∙ split-names g wg) in
      (cc p, cc p, cc p)

  match_sound :
      (f target : Fqbn P)
      → IsValid P f
      → IsValid P target
      → match P f target ≡ true
      → Provides f target
  match_sound f target wf wt h =
      let (a, b, c) = same_names f target wf wt tests.0 in
      record {
        vendor_equal = a;
        architecture_equal = b;
        board_equal = c;
        options_included = λ k v p.
            All-elem (Included f.configs target.configs) k (keys target.configs)
              (match_options_sound f.configs target.configs (keys target.configs) tests.1)
              ((member_iff k (keys target.configs)).0 (P.keys_all target.configs k v p)) v p;
      }
    where
      tests :
          (string_without_config P f ≡ string_without_config P target)
          × (match_options P f.configs target.configs (keys target.configs) ≡ true)
      tests =
          unfold match in
          (
            ground
                (arith, list_beq_iff (string_without_config P f) (string_without_config P target)),
            ground arith,
          )

  match_complete : (f target : Fqbn P) → Provides f target → match P f target ≡ true
  unfolding match string_without_config
  match_complete f target p =
      let none_differs = match_options_complete f.configs target.configs (keys target.configs) (
        All-of_member (λ k. differs (get_ok f.configs k) (get_ok target.configs k) ≡ false)
          (keys target.configs) agrees) in
      rw (p.vendor_equal, p.architecture_equal, p.board_equal)
        (rw (beq_refl (target.vendor ++ (b':' ∷ (target.architecture ++ (b':' ∷ target.board_id)))))
          none_differs)
    where
      agrees :
          (k : Text)
          → member k (keys target.configs) ≡ true
          → differs (get_ok f.configs k) (get_ok target.configs k) ≡ false
      agrees k here =
          let (v, q) = P.keys_bound target.configs k here in
          rw q ((differs-some (get_ok f.configs k) v).1 (p.options_included k v q))

  -- For valid FQBNs, `Match` answers true exactly when the receiver has the three names of the target
  -- and every option of the target with the same value.
  pub match_iff :
      (f target : Fqbn P)
      → IsValid P f
      → IsValid P target
      → (match P f target ≡ true) ↔ Provides f target
  match_iff f target wf wt = (match_sound f target wf wt, match_complete f target)
