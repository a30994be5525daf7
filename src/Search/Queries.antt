-- ===== src/Search/Queries.antt =====
-- What it means that a library matches.
use arduino_cli_android.Prelude.{
  ℕ, Bool, true, false, ◌&&◌, ◌||◌, List, [], ◌∷◌, Option, map, ◌≡◌, refl, ◌↔◌, All, &&_iff,
  Bool-cases, inl, inr, false≢true,
}
use arduino_cli_android.Strings.{Text, codes, contains, join, is_empty}
use arduino_cli_android.Search.{
  IndexLibrary, clean, contains_all, match, match_term, match_terms, matcher_from_query_string,
}
use arduino_cli_android.Search.Tokens.{quote, matcher_tokens-join}

module _ (lower : Text → Text) (remove_diatrics : Text → Option Text) where
  -- `Match` holds exactly when the text contains every one of the others, all of them cleaned.
  match_iff_contains :
      (str : Text) (subs : List Text)
      → (match lower remove_diatrics str subs ≡ true)
        ↔ All
            (λ sub.
              contains (clean lower remove_diatrics sub) (clean lower remove_diatrics str) ≡ true)
            subs
  unfolding match contains_all
  match_iff_contains str [] = (λ h. tt, λ h. refl)
  match_iff_contains str (sub ∷ subs) =
      let (forth, back) = match_iff_contains str subs in
      elim (Bool-cases
        (contains (clean lower remove_diatrics sub) (clean lower remove_diatrics str))) [
          | inl found ↦ rw found (λ h. (refl, forth h), λ h. back h.1)
          | inr absent ↦ rw absent (λ h. absurd (false≢true h), λ h. absurd (false≢true h.0))
        ]

  match_terms_iff :
      (lib : IndexLibrary) (matched : Bool) (terms : List Text)
      → (match_terms lower remove_diatrics lib matched terms ≡ true)
        ↔ ((matched ≡ true) × All (λ t. match_term lower remove_diatrics lib t ≡ true) terms)
  unfolding match_terms
  match_terms_iff lib matched [] = (λ h. (h, tt), λ h. h.0)
  match_terms_iff lib matched (t ∷ ts) =
      let (forth, back) =
        match_terms_iff lib (matched && match_term lower remove_diatrics lib t) ts in
      let (both, join_both) = &&_iff matched (match_term lower remove_diatrics lib t) in
      (
        λ h. let (m, rest) = forth h in ((both m).0, ((both m).1, rest)),
        λ h. back (join_both (h.0, h.1.0), h.1.1),
      )

  module _ (is_letter is_number : ℕ → Bool) where
    -- A library matches a query of quoted words that holds a colon or an equals sign exactly when it
    -- satisfies every word, in lower case; no word is empty.
    pub matcher_iff_All :
        (w : Text) (ws : List Text) (lib : IndexLibrary)
        → All (λ v. is_empty v ≡ false) (w ∷ ws)
        → (contains (codes ":") (join (codes " ") (map quote (w ∷ ws)))
            || contains (codes "=") (join (codes " ") (map quote (w ∷ ws))))
          ≡ true
        → (matcher_from_query_string lower remove_diatrics is_letter is_number
              (join (codes " ") (map quote (w ∷ ws)))
              lib
            ≡ true)
          ↔ All (λ v. match_term lower remove_diatrics lib v ≡ true) (map lower (w ∷ ws))
    unfolding matcher_from_query_string
    matcher_iff_All w ws lib h qualified =
        rw (qualified, matcher_from_query_string)
          (rw (matcher_tokens-join lower w ws h) (
            let (forth, back) = match_terms_iff lib true (map lower (w ∷ ws)) in
            (λ m. (forth m).1, λ a. back (refl, a))))
