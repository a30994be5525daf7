-- ===== src/Filenames/Tests.antt =====
-- A name with a space, a slash and a leading dot.
use arduino_cli_android.Prelude.{◌≤◌, length, all, true, ◌≡◌, refl}
use arduino_cli_android.Strings.{codes}
use arduino_cli_android.Filenames.{sanitize_name, is_safe, sanitize_name_safe}

sanitized : sanitize_name (codes ".My lib/v1.2") ≡ codes "_My_lib_v1.2"
unfolding sanitize_name
sanitized = refl

sanitize_name_safe_example :
    (all is_safe (sanitize_name (codes ".My lib/v1.2")) ≡ true)
    × (length (sanitize_name (codes ".My lib/v1.2")) ≤ 64)
sanitize_name_safe_example = sanitize_name_safe (codes ".My lib/v1.2")
