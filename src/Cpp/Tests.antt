-- ===== src/Cpp/Tests.antt =====
-- Quoted names and a dependency file with escapes.
use arduino_cli_android.Prelude.{Bool, true, false, List, [], ◌∷◌, ◌++◌, none, some, ◌≡◌, refl, All}
use arduino_cli_android.Strings.{
  Text, codes, pos, atoi, lacks, trim_space, replace_all, replace_from, has_prefix,
}
use arduino_cli_android.Cpp.{
  quote_string, parse_string, parse_line_marker, parse_chars, escaped_rune, first_byte, rune_length,
  starts_with,
}
use arduino_cli_android.Cpp.Quoting.{parse_string-quote_string, parse_line_marker_lem}
use arduino_cli_android.Cpp.DepFile.{done, read_dep_file}
use arduino_cli_android.Cpp.DepFile.RoundTrip.{
  escaped, escaped_char, gap, print_words, print_dep_file, words, IsWord,
  read_dep_file-print_dep_file,
}

quoted_name : quote_string (codes "a\"b\\c") ≡ codes "\"a\\\"b\\\\c\""
unfolding quote_string replace_all replace_from has_prefix
quoted_name = refl

-- A character that is not ASCII does not come back as it was after a backslash: é is read as Ã and
-- U+FFFD.
escaped_not_ascii : parse_string (b'"' ∷ b'\\' ∷ 0xE9 ∷ b'"' ∷ []) ≡ (0xC3 ∷ 0xFFFD ∷ [], [], true)
unfolding parse_string parse_chars escaped_rune first_byte rune_length
escaped_not_ascii = refl

parse_string-quote_string_example :
    parse_string (quote_string (codes "a\"b\\c") ++ codes " 1")
    ≡ (codes "a\"b\\c", codes " 1", true)
parse_string-quote_string_example = parse_string-quote_string (codes "a\"b\\c") (codes " 1")

no_space_in_number : lacks b' ' (codes "12") ≡ true
unfolding lacks
no_space_in_number = refl

twelve : atoi (codes "12") ≡ (pos 12, none)
unfolding atoi
twelve = refl

flags_start : starts_with b' ' (codes " 2") ≡ true
unfolding starts_with
flags_start = refl

parse_line_marker_lem_example :
    parse_line_marker
      (λ s. some s)
      (codes "# " ++ (codes "12" ++ (b' ' ∷ (quote_string (codes "a b.cpp") ++ codes " 2"))))
    ≡ some (codes "a b.cpp")
parse_line_marker_lem_example =
    parse_line_marker_lem (λ s. some s) (codes "12") (codes "a b.cpp") (codes " 2") (pos 12)
      no_space_in_number twelve flags_start

abbrev object : Text
object = codes "my core.o"

-- The second dependency stands on a line of its own.
abbrev sources : List (Bool × Text)
sources = (false, codes "a#1.cpp") ∷ (true, codes "$x.h") ∷ []

All-words : All IsWord ((object ++ codes ":") ∷ words sources)
unfolding trim_space
All-words = ((refl, refl, refl), ((refl, refl, refl), ((refl, refl, refl), tt)))

printed_file : print_dep_file object sources ≡ codes "my\\ core.o: a\\#1.cpp \\\n $$x.h\n"
unfolding print_dep_file print_words gap escaped escaped_char
printed_file = refl

read_dep_file-print_dep_file_example :
    read_dep_file (print_dep_file object sources)
    ≡ done (record { object_file = object; dependencies = codes "a#1.cpp" ∷ codes "$x.h" ∷ [] })
read_dep_file-print_dep_file_example = read_dep_file-print_dep_file object sources All-words
