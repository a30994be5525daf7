-- ===== src/Diagnostics/Tests.antt =====
-- The output of gcc for a name that is not declared, and for a line of code that looks like a message.
use arduino_cli_android.Prelude.{[], ◌∷◌, map, ◌≡◌, refl, list_beq}
use arduino_cli_android.Strings.{
  codes, pos, split, cut_text, cut_prefix, has_prefix, atoi, scan_unsigned, scan_digits, is_digit,
}
use arduino_cli_android.Diagnostics.{
  error, Diagnostic, line_and_column, is_one_byte, after_drive, fields,
  extract_file_line_and_column, add_line, extend_note, change_last, extend_current, severity_of,
  context_fits, context_for, add_diagnostic, extra_context, located, message_line, parse_line,
  parse_lines, parse_gcc_output,
}
use arduino_cli_android.Diagnostics.Report.{Place, Report}

abbrev somewhere : Place
somewhere = record {
  file = codes "a.ino";
  line_text = codes "4";
  line = pos 4;
  column_text = codes "1";
  column = pos 1;
}

abbrev undeclared : Report
undeclared = record {
  severity = error;
  main = record {
    place = somewhere;
    text = codes "'asd' was not declared";
    extract = codes " asd;" ∷ [];
  };
  notes =
      record { place = somewhere; text = codes "suggested alternative: 'rand'"; extract = [] } ∷ [];
}

-- The line of code with a colon before a space is lost: it is read as a context in the file.
range_for_is_lost :
    map
      (λ (d : Diagnostic). d.message)
      (parse_gcc_output
        (codes "a.ino:4:1: error: no begin" ∷ codes " for (int x : xs)" ∷ codes " ^" ∷ []))
    ≡ codes "no begin" ∷ []
unfolding parse_gcc_output parse_lines parse_line cut_prefix has_prefix message_line cut_text
    extra_context extend_current located extract_file_line_and_column fields split after_drive
    is_one_byte line_and_column atoi severity_of add_diagnostic context_fits context_for change_last
    extend_note add_line list_beq is_digit scan_digits scan_unsigned
range_for_is_lost = refl
