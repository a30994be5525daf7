-- ===== src/Regex.antt =====
-- The regular expressions of Go's `regexp` that the program uses, matched by derivatives.
use arduino_cli_android.Prelude.{
  ℕ, Bool, true, false, ◌&&◌, ◌||◌, [], ◌∷◌, ◌==◌, nat_eq, leb, if◌then◌else◌,
}
use arduino_cli_android.Strings.{Text}

pub data Regex : Type 0 where
  nothing empty : Regex
  -- One character in a range; a range of two equal ends is a literal.
  range : ℕ → ℕ → Regex
  -- `.`, any character but a newline.
  dot : Regex
  seq alt : Regex → Regex → Regex
  star : Regex → Regex

unfoldable pub nullable : Regex → Bool
nullable nothing = false
nullable empty = true
nullable (range lo hi) = false
nullable dot = false
nullable (seq r s) = nullable r && nullable s
nullable (alt r s) = nullable r || nullable s
nullable (star r) = true

-- What is left to match after the character `c`.
unfoldable pub derivative : ℕ → Regex → Regex
unfolding nullable
derivative c nothing = nothing
derivative c empty = nothing
derivative c (range lo hi) = if leb lo c && leb c hi then empty else nothing
derivative c dot = if c == 10 then nothing else empty
derivative c (seq r s) =
    let rest = seq (derivative c r) s in if nullable r then alt rest (derivative c s) else rest
derivative c (alt r s) = alt (derivative c r) (derivative c s)
derivative c (star r) = seq (derivative c r) (star r)

-- Some prefix of the text matches.
unfoldable pub match_prefix : Regex → Text → Bool
unfolding derivative
match_prefix r [] = nullable r
match_prefix r (c ∷ s) = nullable r || match_prefix (derivative c r) s

-- `MatchString`: some part of the text matches.
unfoldable pub match_string : Regex → Text → Bool
unfolding match_prefix
match_string r [] = match_prefix r []
match_string r (c ∷ s) = match_prefix r (c ∷ s) || match_string r s

-- A literal text.
unfoldable pub text : Text → Regex
text [] = empty
text (c ∷ []) = range c c
text (c ∷ d ∷ s) = seq (range c c) (text (d ∷ s))

unfoldable pub optional : Regex → Regex
optional r = alt r empty
