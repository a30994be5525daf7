-- ===== src/Search.antt =====
-- commands/utility_libraries_index_search_matcher.go and internal/arduino/utils/search.go: the search in
-- the index of libraries.
pub mod Tokens
pub mod Queries
mod Tests
use arduino_cli_android.Prelude.{
  ℕ, Bool, true, false, not, ◌&&◌, ◌||◌, List, [], ◌∷◌, ◌++◌, Option, none, some, ◌==◌, nat_eq,
  list_eq, if◌then◌else◌, lookup,
}
use arduino_cli_android.Strings.{
  Text, codes, contains, join, split, trim_space, is_empty, push_first,
}

-- The latest release of a library, as far as the search reads it: the names of the dependencies, and
-- the version as text.
pub record Release : Type 0 where
  pub author : Text
  pub version : Text
  pub dependencies : List Text
  pub maintainer : Text
  pub sentence : Text
  pub paragraph : Text
  pub website : Text
  pub category : Text
  pub license : Text
  pub architectures : List Text
  pub types : List Text
  pub provides_includes : List Text

pub record IndexLibrary : Type 0 where
  pub name : Text
  pub latest : Release

unfoldable pub include_words : List Text → Text
include_words [] = []
include_words (include ∷ includes) = include ++ (codes " " ++ include_words includes)

unfoldable pub default_library_match_extractor : IndexLibrary → Text
default_library_match_extractor lib =
    lib.name
    ++ (codes " "
        ++ (lib.latest.paragraph
            ++ (codes " "
                ++ (lib.latest.sentence
                    ++ (codes " "
                        ++ (lib.latest.author
                            ++ (codes " " ++ include_words lib.latest.provides_includes)))))))

abbrev pub qualifiers : List (Text × (IndexLibrary → Text))
qualifiers =
    (codes "name", λ lib. lib.name)
    ∷ (codes "architectures", λ lib. join (codes " ") lib.latest.architectures)
    ∷ (codes "author", λ lib. lib.latest.author)
    ∷ (codes "category", λ lib. lib.latest.category)
    ∷ (codes "dependencies", λ lib. join (codes " ") lib.latest.dependencies)
    ∷ (codes "license", λ lib. lib.latest.license)
    ∷ (codes "maintainer", λ lib. lib.latest.maintainer)
    ∷ (codes "paragraph", λ lib. lib.latest.paragraph)
    ∷ (codes "provides", λ lib. join (codes " ") lib.latest.provides_includes)
    ∷ (codes "sentence", λ lib. lib.latest.sentence)
    ∷ (codes "types", λ lib. join (codes " ") lib.latest.types)
    ∷ (codes "version", λ lib. lib.latest.version)
    ∷ (codes "website", λ lib. lib.latest.website)
    ∷ []

-- A term at its first colon or equals sign: what is before, the sign, and what is after.
abbrev pub after_char : ℕ → Option (Text × ℕ × Text) → Option (Text × ℕ × Text)
after_char c none = none
after_char c (some (before, separator, target)) = some (c ∷ before, separator, target)

unfoldable pub at_separator : Text → Option (Text × ℕ × Text)
at_separator [] = none
at_separator (c ∷ s) =
    let rest = after_char c (at_separator s) in
    if c == b':' || c == b'=' then some ([], c, s) else rest

-- The variables of the loop of `matcherTokensFromQueryString`.
pub record Reader : Type 0 where
  pub escaped : Bool
  pub quoted : Bool
  pub sb : Text
  pub tokens : List Text

-- `strings.ToLower`, `unicode.IsLetter` and `IsNumber` are those of all of Unicode; `remove_diatrics` is
-- the transformation by the packages `golang.org/x/text`, with `none` for an error.
module _ (lower : Text → Text) where
  unfoldable pub step : Reader → ℕ → Reader
  step st r =
      if not st.escaped && r == b'\\'
      then record { escaped = true; quoted = st.quoted; sb = st.sb; tokens = st.tokens }
      else if r == b'"'
      then (if not st.escaped
          then record { escaped = false; quoted = not st.quoted; sb = st.sb; tokens = st.tokens }
          else record {
            escaped = false;
            quoted = st.quoted;
            sb = st.sb ++ (r ∷ []);
            tokens = st.tokens;
          })
      else if not st.quoted && r == b' '
      then record {
        escaped = false;
        quoted = st.quoted;
        sb = [];
        tokens = st.tokens ++ (lower st.sb ∷ []);
      }
      else record {
        escaped = false;
        quoted = st.quoted;
        sb = st.sb ++ (r ∷ []);
        tokens = st.tokens;
      }

  unfoldable pub read : Reader → Text → Reader
  read st [] = st
  read st (r ∷ query) = read (step st r) query

  unfoldable pub last_token : Reader → List Text
  last_token st = if is_empty st.sb then st.tokens else st.tokens ++ (lower st.sb ∷ [])

  unfoldable pub matcher_tokens_from_query_string : Text → List Text
  matcher_tokens_from_query_string query =
      last_token (read (record { escaped = false; quoted = false; sb = []; tokens = [] }) query)

  module _ (remove_diatrics : Text → Option Text) where
    unfoldable pub clean : Text → Text
    clean s = elim (remove_diatrics (lower s)) [ none ↦ lower s | some s₂ ↦ s₂ ]

    -- The loop of `Match`, on the cleaned text.
    unfoldable pub contains_all : Text → List Text → Bool
    contains_all str [] = true
    contains_all str (sub ∷ subs) =
        if not (contains (clean sub) str) then false else contains_all str subs

    unfoldable pub match : Text → List Text → Bool
    match str substrings = contains_all (clean str) substrings

    unfoldable pub match_some : List Text → List Text → Bool
    match_some query_args [] = false
    match_some query_args (t ∷ array) =
        if match t query_args then true else match_some query_args array

    -- `Split` gives at least one piece, so the early return is never taken.
    unfoldable pub match_any : Text → List Text → Bool
    match_any query array_to_match =
        let query_args = split b' ' (trim_space query) in
        if is_empty query_args then true else match_some query_args array_to_match

    unfoldable pub match_basic : IndexLibrary → Text → Bool
    match_basic lib term = match (default_library_match_extractor lib) (term ∷ [])

    -- By the sign: a colon asks for a part of the value, an equals sign for all of it.
    unfoldable pub match_qualified : Text → ℕ → Text → Bool
    match_qualified value separator target =
        if separator == b':' then match value (target ∷ []) else lower value == target

    unfoldable pub match_term : IndexLibrary → Text → Bool
    match_term lib term = elim (at_separator term) [
      | none ↦ match_basic lib term
      | some (qualifier, separator, target) ↦ elim (lookup qualifier qualifiers) [
        | none ↦ match_basic lib term
        | some extractor ↦ match_qualified (extractor lib) separator target
      ]
    ]

    -- The loop over the terms.
    unfoldable pub match_terms : IndexLibrary → Bool → List Text → Bool
    match_terms lib matched [] = matched
    match_terms lib matched (term ∷ terms) = match_terms lib (matched && match_term lib term) terms

    module _ (is_letter is_number : ℕ → Bool) where
      -- `strings.FieldsFunc`: the longest pieces without a separator.
      unfoldable pub fields : Text → Text → List Text
      fields piece [] = if is_empty piece then [] else piece ∷ []
      fields piece (r ∷ s) =
          let separates = not (is_letter r) && (not (is_number r) && not (r == b':')) in
          let rest = fields (if separates then [] else piece ++ (r ∷ [])) s in
          if separates && not (is_empty piece) then piece ∷ rest else rest

      unfoldable pub search_terms_from_query_string : Text → List Text
      search_terms_from_query_string query = fields [] (lower query)

      unfoldable pub matcher_from_query_string : Text → IndexLibrary → Bool
      matcher_from_query_string query lib =
          if contains (codes ":") query || contains (codes "=") query
          then match_terms lib true (matcher_tokens_from_query_string query)
          else match (default_library_match_extractor lib) (search_terms_from_query_string query)
