-- ===== src/Search/Tests.antt =====
-- A query for a library by its name, with a word of two parts.
use arduino_cli_android.Prelude.{
  ℕ, Bool, true, ◌||◌, List, [], ◌∷◌, Option, some, map, ◌≡◌, refl, ◌↔◌, All,
}
use arduino_cli_android.Strings.{Text, codes, contains, join, to_lower}
use arduino_cli_android.Search.{
  IndexLibrary, match_term, matcher_from_query_string, matcher_tokens_from_query_string,
}
use arduino_cli_android.Search.Tokens.{quote, escape, matcher_tokens-join}
use arduino_cli_android.Search.Queries.{matcher_iff_All}

abbrev as_it_is : Text → Option Text
as_it_is s = some s

abbrev every : ℕ → Bool
every c = true

abbrev servo : IndexLibrary
servo = record {
  name = codes "Servo";
  latest = record {
    author = codes "Arduino";
    version = codes "1.0.0";
    dependencies = [];
    maintainer = codes "Arduino";
    sentence = codes "Controls a big motor.";
    paragraph = [];
    website = [];
    category = [];
    license = [];
    architectures = codes "avr" ∷ [];
    types = [];
    provides_includes = codes "Servo.h" ∷ [];
  };
}

abbrev named : Text
named = codes "name=Servo"

abbrev others : List Text
others = codes "big motor" ∷ []

qualified :
    (contains (codes ":") (join (codes " ") (map quote (named ∷ others)))
      || contains (codes "=") (join (codes " ") (map quote (named ∷ others))))
    ≡ true
unfolding contains join quote escape
qualified = refl

matcher_tokens-join_example :
    matcher_tokens_from_query_string to_lower (join (codes " ") (map quote (named ∷ others)))
    ≡ map to_lower (named ∷ others)
matcher_tokens-join_example = matcher_tokens-join to_lower named others (refl, (refl, tt))

matcher_iff_All_example :
    (matcher_from_query_string to_lower as_it_is every every
        (join (codes " ") (map quote (named ∷ others)))
        servo
      ≡ true)
    ↔ All (λ v. match_term to_lower as_it_is servo v ≡ true) (map to_lower (named ∷ others))
matcher_iff_All_example =
    matcher_iff_All to_lower as_it_is every every named others servo (refl, (refl, tt)) qualified
