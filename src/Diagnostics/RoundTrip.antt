-- ===== src/Diagnostics/RoundTrip.antt =====
-- What gcc prints for a list of diagnostics is parsed back to them.
use arduino_cli_android.Prelude.{List, [], ◌∷◌, nat_eq, list_eq}
use arduino_cli_android.Diagnostics.{Diagnostic}
use arduino_cli_android.Diagnostics.Report.{Remark, Report, as_note}
use arduino_cli_android.Diagnostics.Lines.{add_note}

abbrev with_notes : List Remark → Diagnostic → Diagnostic
with_notes [] d = d
with_notes (n ∷ ns) d = with_notes ns (add_note (as_note n) d)
