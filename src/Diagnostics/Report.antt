-- ===== src/Diagnostics/Report.antt =====
-- Diagnostics the way gcc prints them, to which the parser of parser_gcc.go is an inverse.
use arduino_cli_android.Prelude.{
  true, false, ◌&&◌, List, [], ◌∷◌, ◌++◌, map, none, nat_eq, list_eq, ◌≡◌, All,
}
use arduino_cli_android.Strings.{Text, codes, cut_text, has_prefix, ℤ, atoi, lacks}
use arduino_cli_android.Diagnostics.{Severity, warning, error, fatal, Note, Diagnostic, is_zero}

-- A place with its numbers, and the texts that stand for them.
pub record Place : Type 0 where
  pub file : Text
  pub line_text : Text
  pub line : ℤ
  pub column_text : Text
  pub column : ℤ

abbrev pub print_place : Place → Text → Text
print_place p rest = p.file ++ (b':' ∷ (p.line_text ++ (b':' ∷ (p.column_text ++ rest))))

abbrev pub trace_start : Text
trace_start = codes "In file included from "

abbrev pub trace_next : Text
trace_next = codes "                 from "

-- A number as `Atoi` reads it, without the signs that divide a place.
pub record IsNumber (text : Text) (n : ℤ) : Type 0 where
  pub reads : atoi text ≡ (n, none)
  pub no_colon : lacks b':' text ≡ true
  pub no_space : lacks b' ' text ≡ true
  pub no_backslash : has_prefix (codes "\\") text ≡ false

-- A file without a colon that is not taken for a trace of includes, and a place in it that is not 0:0.
pub record IsPlace (p : Place) : Type 0 where
  pub no_colon : lacks b':' p.file ≡ true
  pub not_trace : has_prefix trace_start p.file ≡ false
  pub not_next : has_prefix trace_next p.file ≡ false
  pub line_number : IsNumber p.line_text p.line
  pub column_number : IsNumber p.column_text p.column
  pub not_origin : (is_zero p.line && is_zero p.column) ≡ false

-- An extract of the code: it starts with a space, and holds no colon before a space.
pub record IsExtract (l : Text) : Type 0 where
  pub indented : has_prefix (codes " ") l ≡ true
  pub uncut : cut_text (codes ": ") l ≡ none
  pub not_trace : has_prefix trace_start l ≡ false
  pub not_next : has_prefix trace_next l ≡ false

-- A message at a place, with the lines of code below it.
pub record Remark : Type 0 where
  pub place : Place
  pub text : Text
  pub extract : List Text

pub record Report : Type 0 where
  pub severity : Severity
  pub main : Remark
  pub notes : List Remark

abbrev pub kind : Severity → Text
kind warning = codes "warning: "
kind error = codes "error: "
kind fatal = codes "fatal error: "

abbrev pub first_line : Text → Remark → Text
first_line k r = print_place r.place (codes ": " ++ (k ++ r.text))

abbrev pub print_notes : List Remark → List Text
print_notes [] = []
print_notes (n ∷ ns) = first_line (codes "note: ") n ∷ (n.extract ++ print_notes ns)

abbrev pub print_report : Report → List Text → List Text
print_report r rest =
    first_line (kind r.severity) r.main ∷ (r.main.extract ++ (print_notes r.notes ++ rest))

abbrev pub print_reports : List Report → List Text
print_reports [] = []
print_reports (r ∷ rs) = print_report r (print_reports rs)

abbrev pub with_lines : Text → List Text → Text
with_lines text [] = text
with_lines text (l ∷ ls) = with_lines (text ++ (b'\n' ∷ l)) ls

abbrev pub as_note : Remark → Note
as_note r = record {
  message = with_lines r.text r.extract;
  file = r.place.file;
  line = r.place.line;
  column = r.place.column;
}

abbrev pub as_diagnostic : Report → Diagnostic
as_diagnostic r = record {
  severity = r.severity;
  message = with_lines r.main.text r.main.extract;
  file = r.main.place.file;
  line = r.main.place.line;
  column = r.main.place.column;
  context = [];
  suggestions = map as_note r.notes;
}

abbrev pub IsRemark : Remark → Type 0
IsRemark r = IsPlace r.place × All IsExtract r.extract

abbrev pub IsReport : Report → Type 0
IsReport r = IsRemark r.main × All IsRemark r.notes
