-- ===== src/Diagnostics/Lines.antt =====
-- What the parser of parser_gcc.go makes of one line of each kind.
use arduino_cli_android.Prelude.{
  Bool, true, false, ◌&&◌, List, [], ◌∷◌, ◌++◌, Option, none, some, nat_eq, list_eq, ◌≡◌, refl, ap,
  ◌∙◌, append-nil, arith,
}
use arduino_cli_android.Strings.{
  Text, codes, cut_text, cut_prefix, has_prefix, is_empty, ℤ, NumError, atoi, lacks, split-append,
  split-lacks, cut_text-skip, has_prefix-plain, put_before,
}
use arduino_cli_android.Diagnostics.{
  Severity, warning, error, fatal, Note, Diagnostic, Current, the_diagnostic, the_suggestion, State,
  line_and_column, is_one_byte, after_drive, fields, extract_file_line_and_column, change_last,
  extend_current, add_suggestion, severity_of, context_fits, context_for, add_diagnostic,
  extra_context, located, message_line, parse_line, parse_lines,
}
use arduino_cli_android.Diagnostics.Report.{
  Place, print_place, trace_start, trace_next, IsPlace, IsExtract, kind,
}

pub change_last-snoc :
    {A : Type 0} (f : A → A) (xs : List A) (x : A)
    → change_last f (xs ++ (x ∷ [])) ≡ xs ++ (f x ∷ [])
unfolding change_last
change_last-snoc f [] x = refl
change_last-snoc f (y ∷ []) x = refl
change_last-snoc f (y ∷ z ∷ xs) x = ap (λ t. y ∷ t) (change_last-snoc f (z ∷ xs) x)

pub parse_lines-append :
    (a b : List Text) (s : State) → parse_lines (a ++ b) s ≡ parse_lines b (parse_lines a s)
unfolding parse_lines
parse_lines-append [] b s = refl
parse_lines-append (l ∷ a) b s = parse_lines-append a b (parse_line l s)

cut_field :
    (l rest : Text)
    → lacks b':' l ≡ true
    → lacks b' ' l ≡ true
    → cut_text (codes ": ") (b':' ∷ (l ++ (b':' ∷ rest)))
      ≡ put_before (b':' ∷ l) (cut_text (codes ": ") (b':' ∷ rest))
unfolding cut_text has_prefix lacks
cut_field [] rest h n = refl
cut_field (d ∷ l) rest h n =
    let goes_on : has_prefix (codes ": ") (b':' ∷ d ∷ (l ++ (b':' ∷ rest))) ≡ false =
      ground (arith, n) in
    rw (goes_on, cut_text)
      (ap (put_before (b':' ∷ [])) (cut_text-skip b':' (codes " ") (d ∷ l) (b':' ∷ rest) h)
        ∙ put_before_one (d ∷ l) (cut_text (codes ": ") (b':' ∷ rest)))
  where
    put_before_one :
        (w : Text) (o : Option (Text × Text))
        → put_before (b':' ∷ []) (put_before w o) ≡ put_before (b':' ∷ w) o
    put_before_one w none = refl
    put_before_one w (some (a, b)) = refl

cut_place :
    (p : Place) (msg : Text)
    → IsPlace p
    → cut_text (codes ": ") (print_place p (codes ": " ++ msg)) ≡ some (print_place p [], msg)
unfolding cut_text has_prefix
cut_place p msg h =
    let after_column = codes ": " ++ msg in
    let after_line = b':' ∷ (p.column_text ++ after_column) in
    cut_text-skip b':' (codes " ") p.file (b':' ∷ (p.line_text ++ after_line)) h.no_colon
    ∙ ap (put_before p.file) (
        cut_field p.line_text (p.column_text ++ after_column) h.line_number.no_colon
          h.line_number.no_space
        ∙ ap (put_before (b':' ∷ p.line_text)) (
            cut_field p.column_text (b' ' ∷ msg) h.column_number.no_colon h.column_number.no_space))

and_false : (b : Bool) → (b && false) ≡ false
and_false true = refl
and_false false = refl

line_and_column-read :
    (file l c : Text) (line column : ℤ)
    → atoi l ≡ (line, none)
    → atoi c ≡ (column, none)
    → line_and_column file (l ∷ c ∷ []) ≡ (file, line, column)
unfolding line_and_column
line_and_column-read file l c line column h h' =
    rw (h, line_and_column) (rw h' (ap (λ (x : ℤ × Option NumError). (file, x.0, column)) h))

cut_prefix-none : (p s : Text) → has_prefix p s ≡ false → cut_prefix p s ≡ none
unfolding cut_prefix
cut_prefix-none p s h = rw h refl

extract-place :
    (p : Place)
    → IsPlace p
    → extract_file_line_and_column (print_place p []) ≡ (p.file, p.line, p.column)
unfolding extract_file_line_and_column fields after_drive
extract-place p h = rw (append-nil p.column_text) (
    rw
      (
        split-append b':' p.file (p.line_text ++ (b':' ∷ p.column_text)) h.no_colon,
        split-append b':' p.line_text p.column_text h.line_number.no_colon,
        split-lacks b':' p.column_text h.column_number.no_colon,
      )
      (rw (h.line_number.no_backslash, and_false (is_one_byte p.file))
        (line_and_column-read p.file p.line_text p.column_text p.line p.column h.line_number.reads
          h.column_number.reads)))

-- A line with a place is read as the message there.
pub parse-first_line :
    (p : Place) (msg : Text) (s : State)
    → IsPlace p
    → parse_line (print_place p (codes ": " ++ msg)) s
      ≡ located (print_place p (codes ": " ++ msg)) (p.file, p.line, p.column) msg s
unfolding parse_line message_line lacks
parse-first_line p msg s h =
    let rest = p.line_text ++ (b':' ∷ (p.column_text ++ (codes ": " ++ msg))) in
    let line = print_place p (codes ": " ++ msg) in
    rw
      (
        cut_prefix-none trace_start line
            (has_prefix-plain b':' trace_start p.file rest refl h.not_trace),
        cut_prefix-none trace_next line
            (has_prefix-plain b':' trace_next p.file rest refl h.not_next),
        parse_line,
      )
      (rw (cut_place p msg h, message_line) (rw (extract-place p h) refl))

-- The state without a context.
abbrev pub state : Current → List Diagnostic → State
state c ds = record {
  full_context = [];
  full_context_refers_to = [];
  in_file_context = none;
  current = c;
  res = ds;
}

pub located-kind :
    (l : Text) (sev : Severity) (p : Place) (text : Text) (c : Current) (ds : List Diagnostic)
    → IsPlace p
    → located l (p.file, p.line, p.column) (kind sev ++ text) (state c ds)
      ≡ state the_diagnostic (
          ds
          ++ (record {
            severity = sev;
            message = text;
            file = p.file;
            line = p.line;
            column = p.column;
            context = [];
            suggestions = [];
          }
              ∷ []))
unfolding located severity_of add_diagnostic context_fits context_for cut_prefix has_prefix
located-kind l warning p text c ds h = rw (h.not_origin, located) refl
located-kind l error p text c ds h = rw (h.not_origin, located) refl
located-kind l fatal p text c ds h = rw (h.not_origin, located) refl

abbrev pub add_note : Note → Diagnostic → Diagnostic
add_note n d = record d { suggestions = d.suggestions ++ (n ∷ []) }

is_empty-snoc : (ds : List Diagnostic) (d : Diagnostic) → is_empty (ds ++ (d ∷ [])) ≡ false
is_empty-snoc [] d = refl
is_empty-snoc (x ∷ ds) d = refl

pub located-note :
    (l : Text) (p : Place) (text : Text) (c : Current) (ds : List Diagnostic) (d : Diagnostic)
    → IsPlace p
    → located l (p.file, p.line, p.column) (codes "note: " ++ text) (state c (ds ++ (d ∷ [])))
      ≡ state the_suggestion (
          ds
          ++ (add_note
                (record { message = text; file = p.file; line = p.line; column = p.column })
                d
              ∷ []))
unfolding located add_suggestion cut_prefix has_prefix
located-note l p text c ds d h =
    let n : Note = record { message = text; file = p.file; line = p.line; column = p.column } in
    rw (h.not_origin, located)
      (rw (is_empty-snoc ds d) (ap (state the_suggestion) (change_last-snoc (add_note n) ds d)))

abbrev pub with_message : Text → Diagnostic → Diagnostic
with_message text d = record d { message = text }

pub parse-extract_line :
    (l : Text) (s : State) → IsExtract l → parse_line l s ≡ extend_current s.current l s
unfolding parse_line message_line extra_context
parse-extract_line l s h =
    rw
      (
        cut_prefix-none trace_start l h.not_trace,
        cut_prefix-none trace_next l h.not_next,
        parse_line,
      )
      (rw (h.uncut, message_line) (rw h.indented refl))
