-- ===== src/Search/Tokens.antt =====
-- A query of quoted words has those words for tokens.
use arduino_cli_android.Prelude.{
  ℕ, Bool, true, false, List, [], ◌∷◌, ◌++◌, map, ◌==◌, nat_eq, nat_beq_iff, if◌then◌else◌, ◌≡◌,
  refl, ap, sym, ◌∙◌, Bool-cases, inl, inr, append_assoc, append-nil, All,
}
use arduino_cli_android.Strings.{Text, codes, join, is_empty}
use arduino_cli_android.Search.{Reader, step, read, last_token, matcher_tokens_from_query_string}

-- A word in quotes, with a backslash before each quote and backslash.
unfoldable pub escape : Text → Text
escape [] = []
escape (c ∷ w) =
    (if c == b'\\' then codes "\\\\" else if c == b'"' then codes "\\\"" else c ∷ []) ++ escape w

unfoldable pub quote : Text → Text
quote w = b'"' ∷ (escape w ++ (b'"' ∷ []))

abbrev reading : Bool → Text → List Text → Reader
reading quoted sb tokens = record { escaped = false; quoted = quoted; sb = sb; tokens = tokens }

module _ (lower : Text → Text) where
  step-ordinary :
      (sb : Text) (tokens : List Text) (c : ℕ)
      → (c == b'\\') ≡ false
      → (c == b'"') ≡ false
      → step lower (reading true sb tokens) c ≡ reading true (sb ++ (c ∷ [])) tokens
  unfolding step
  step-ordinary sb tokens c n₁ n₂ = rw (n₁, n₂, step) refl

  read-escape :
      (sb : Text) (tokens : List Text) (w rest : Text)
      → read lower (reading true sb tokens) (escape w ++ rest)
        ≡ read lower (reading true (sb ++ w) tokens) rest
  unfolding read escape step
  read-escape sb tokens [] rest = rw (append-nil sb)
  read-escape sb tokens (c ∷ w) rest =
      let then_next : (k : ℕ)
          → read lower (reading true (sb ++ (k ∷ [])) tokens) (escape w ++ rest)
            ≡ read lower (reading true (sb ++ (k ∷ w)) tokens) rest =
        λ k.
          read-escape (sb ++ (k ∷ [])) tokens w rest
          ∙ ap (λ (t : Text). read lower (reading true t tokens) rest)
              (append_assoc sb (k ∷ []) w) in
      elim (Bool-cases (c == b'\\')) [
        | inl e ↦ rw ((nat_beq_iff c b'\\').0 e) (then_next b'\\')
        | inr n₁ ↦ elim (Bool-cases (c == b'"')) [
          | inl e ↦ rw ((nat_beq_iff c b'"').0 e) (then_next b'"')
          | inr n₂ ↦ rw (n₁, n₂) (rw (step-ordinary sb tokens c n₁ n₂, read) (then_next c))
        ]
      ]

  read-quote :
      (tokens : List Text) (w rest : Text)
      → read lower (reading false [] tokens) (quote w ++ rest)
        ≡ read lower (reading false w tokens) rest
  unfolding read quote step
  read-quote tokens w rest =
      rw (append_assoc (escape w) (b'"' ∷ []) rest) (read-escape [] tokens w (b'"' ∷ rest))

  tokens-words :
      (tokens : List Text) (w : Text) (ws : List Text)
      → All (λ v. is_empty v ≡ false) (w ∷ ws)
      → last_token lower
          (read lower (reading false [] tokens) (join (codes " ") (map quote (w ∷ ws))))
        ≡ tokens ++ map lower (w ∷ ws)
  unfolding join last_token read step
  tokens-words tokens w [] h =
      ap (λ (q : Text). last_token lower (read lower (reading false [] tokens) q))
        (sym (append-nil (quote w)))
      ∙ (ap (last_token lower) (read-quote tokens w []) ∙ rw (h.0) refl)
  tokens-words tokens w (v ∷ ws) h =
      ap (last_token lower) (read-quote tokens w (b' ' ∷ join (codes " ") (map quote (v ∷ ws))))
      ∙ (tokens-words (tokens ++ (lower w ∷ [])) v ws h.1
          ∙ append_assoc tokens (lower w ∷ []) (map lower (v ∷ ws)))

  -- The words of a query, each in quotes with its quotes and backslashes escaped, become its tokens in
  -- lower case, spaces included; no word is empty.
  pub matcher_tokens-join :
      (w : Text) (ws : List Text)
      → All (λ v. is_empty v ≡ false) (w ∷ ws)
      → matcher_tokens_from_query_string lower (join (codes " ") (map quote (w ∷ ws)))
        ≡ map lower (w ∷ ws)
  unfolding matcher_tokens_from_query_string
  matcher_tokens-join w ws h = tokens-words [] w ws h
