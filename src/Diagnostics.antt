-- ===== src/Diagnostics.antt =====
-- internal/arduino/builder/internal/diagnostics: the diagnostics in what a compiler wrote (parser.go and parser_gcc.go).
pub mod Report
pub mod Lines
pub mod RoundTrip
mod Tests
use arduino_cli_android.Prelude.{
  ℕ, zero, suc, Bool, true, false, ◌&&◌, ◌||◌, List, [], ◌∷◌, ◌++◌, map, Option, none, some, ◌==◌,
  nat_eq, list_eq, if◌then◌else◌, ltb,
}
use arduino_cli_android.Strings.{
  Text, codes, split, cut_text, cut_prefix, has_prefix, trim_suffix, is_empty, ℤ, pos, negsuc,
  NumError, atoi,
}

pub data Severity : Type 0 where
  warning error fatal : Severity

-- `Context` and `Note` have the same fields.
pub record Note : Type 0 where
  pub message : Text
  pub file : Text
  pub line : ℤ
  pub column : ℤ

pub record Diagnostic : Type 0 where
  pub severity : Severity
  pub message : Text
  pub file : Text
  pub line : ℤ
  pub column : ℤ
  pub context : List Note
  pub suggestions : List Note

-- What `currentMessage` points to: always the newest of its kind, so that the kind tells which it is.
pub data Current : Type 0 where
  nothing the_trace the_in_file_context the_diagnostic the_suggestion : Current

-- The local variables of the loop; `currentDiagnostic` is the last of `res`.
pub record State : Type 0 where
  pub full_context : List Note
  pub full_context_refers_to : Text
  pub in_file_context : Option Note
  pub current : Current
  pub res : List Diagnostic

abbrev pub start : State
start = record {
  full_context = [];
  full_context_refers_to = [];
  in_file_context = none;
  current = nothing;
  res = [];
}

abbrev pub Location : Type 0
Location = Text × ℤ × ℤ

-- A file with the fields after it.
unfoldable pub line_and_column : Text → List Text → Location
line_and_column file [] = (file, pos 0, pos 0)
line_and_column file (l ∷ rest) =
    let (line, err) = atoi l in
    elim err [
      | some e ↦ (file, line, pos 0)
      | none ↦ elim rest [ [] ↦ (file, line, pos 0) | c ∷ _ ↦ (file, line, (atoi c).0) ]
    ]

-- `len(file) == 1`: one character, of one byte.
unfoldable pub is_one_byte : Text → Bool
is_one_byte (c ∷ []) = ltb c 128
is_one_byte _ = false

-- A file of one letter before a backslash is a drive.
unfoldable pub after_drive : Text → List Text → Location
after_drive file [] = (file, pos 0, pos 0)
after_drive file (l ∷ rest) =
    if is_one_byte file && has_prefix (codes "\\") l
    then line_and_column (file ++ (b':' ∷ l)) rest
    else line_and_column file (l ∷ rest)

unfoldable pub fields : List Text → Location
fields [] = ([], pos 0, pos 0)
fields (file ∷ rest) = after_drive file rest

unfoldable pub extract_file_line_and_column : Text → Location
extract_file_line_and_column file = fields (split b':' file)

abbrev pub is_zero : ℤ → Bool
is_zero (pos zero) = true
is_zero (pos (suc n)) = false
is_zero (negsuc n) = false

unfoldable pub add_line : Text → Text → Text
add_line message line = message ++ (b'\n' ∷ line)

unfoldable pub extend_note : Text → Note → Note
extend_note l n = record n { message = add_line n.message l }

-- The change of the last of a list.
unfoldable pub change_last {ℓ} : {A : Type ℓ} → (A → A) → List A → List A
change_last f [] = []
change_last f (x ∷ []) = f x ∷ []
change_last f (x ∷ y ∷ xs) = x ∷ change_last f (y ∷ xs)

unfoldable pub extend_current : Current → Text → State → State
extend_current nothing l s = s
extend_current the_trace l s = record s {
  full_context = change_last (extend_note l) s.full_context;
}
extend_current the_in_file_context l s = record s {
  in_file_context = elim s.in_file_context [ none ↦ none | some c ↦ some (extend_note l c) ];
}
extend_current the_diagnostic l s = record s {
  res = change_last (λ d. record d { message = add_line d.message l }) s.res;
}
extend_current the_suggestion l s = record s {
  res =
      change_last (λ d. record d { suggestions = change_last (extend_note l) d.suggestions }) s.res;
}

unfoldable pub add_trace : Text → State → State
add_trace text s =
    let (file, line, col) = extract_file_line_and_column (trim_suffix (codes ",") text) in
    record s {
      full_context =
          s.full_context
          ++ (record {
            file = file;
            line = line;
            column = col;
            message = codes "included from here";
          }
              ∷ []);
      current = the_trace;
    }

abbrev pub forget_context : State → State
forget_context s = record s {
  in_file_context = none;
  full_context = [];
  full_context_refers_to = [];
}

unfoldable pub add_suggestion : Note → State → State
add_suggestion n s = if is_empty s.res then s else record s {
  res = change_last (λ d. record d { suggestions = d.suggestions ++ (n ∷ []) }) s.res;
  current = the_suggestion;
}

unfoldable pub severity_of : Text → Option (Severity × Text)
severity_of msg = elim (cut_prefix (codes "error: ") msg) [
  | some after ↦ some (error, after)
  | none ↦ elim (cut_prefix (codes "warning: ") msg) [
    | some after ↦ some (warning, after)
    | none ↦ elim (cut_prefix (codes "fatal error: ") msg) [
      | some after ↦ some (fatal, after)
      | none ↦ none
    ]
  ]
]

-- Whether the trace of includes belongs to a diagnostic in the file.
unfoldable pub context_fits : State → Text → Bool
context_fits s file =
    if is_empty s.full_context
    then false
    else is_empty s.full_context_refers_to || s.full_context_refers_to == file

unfoldable pub context_for : State → Text → List Note
context_for s file =
    (if context_fits s file then s.full_context else [])
    ++ elim s.in_file_context [ none ↦ [] | some c ↦ if c.file == file then c ∷ [] else [] ]

unfoldable pub add_diagnostic : Severity → Text → Location → State → State
add_diagnostic severity msg (file, line, column) s = record s {
  full_context_refers_to = if context_fits s file then file else s.full_context_refers_to;
  current = the_diagnostic;
  res =
      s.res
      ++ (record {
        severity = severity;
        message = msg;
        file = file;
        line = line;
        column = column;
        context = context_for s file;
        suggestions = [];
      }
          ∷ []);
}

-- An extract of the code.
unfoldable pub extra_context : Text → State → State
extra_context l s = if has_prefix (codes " ") l then extend_current s.current l s else s

unfoldable pub located : Text → Location → Text → State → State
located l (file, line, column) msg s =
    if is_zero line && is_zero column
    then record s {
      in_file_context = some (record { message = msg; file = file; line = pos 0; column = pos 0 });
      current = the_in_file_context;
    }
    else elim (cut_prefix (codes "note: ") msg) [
      | some after ↦
          add_suggestion (record { message = after; file = file; line = line; column = column }) s
      | none ↦ elim (severity_of msg) [
        | some (severity, text) ↦ add_diagnostic severity text (file, line, column) s
        | none ↦ extra_context l s
      ]
    ]

unfoldable pub message_line : Text → State → State
message_line l s = elim (cut_text (codes ": ") l) [
  | some (place, msg) ↦ located l (extract_file_line_and_column place) msg s
  | none ↦ extra_context l s
]

unfoldable pub parse_line : Text → State → State
parse_line l s = elim (cut_prefix (codes "In file included from ") l) [
  | some after ↦ add_trace after (forget_context s)
  | none ↦ elim (cut_prefix (codes "                 from ") l) [
    | some after ↦ add_trace after s
    | none ↦ message_line l s
  ]
]

unfoldable pub parse_lines : List Text → State → State
parse_lines [] s = s
parse_lines (l ∷ output) s = parse_lines output (parse_line l s)

unfoldable pub parse_gcc_output : List Text → List Diagnostic
parse_gcc_output output = (parse_lines output start).res

unfoldable pub without_last_empty : List Text → List Text
without_last_empty [] = []
without_last_empty (l ∷ []) = if is_empty l then [] else l ∷ []
without_last_empty (l ∷ l' ∷ ls) = l ∷ without_last_empty (l' ∷ ls)

unfoldable pub split_lines : Text → List Text
split_lines out = without_last_empty (map (trim_suffix (codes "\r")) (split b'\n' out))

-- `none` is the error on a compiler that is not supported.
unfoldable pub parse_compiler_output : Text → Text → Option (List Diagnostic)
parse_compiler_output family out =
    if family == codes "gcc" then some (parse_gcc_output (split_lines out)) else none
