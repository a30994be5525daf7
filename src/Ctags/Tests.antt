-- ===== src/Ctags/Tests.antt =====
-- A declared function, and one that stands twice.
use arduino_cli_android.Prelude.{true, ◌↔◌, List, [], ◌∷◌, nat_eq, list_eq, member, Uniq, ◌≡◌}
use arduino_cli_android.Strings.{Text, codes}
use arduino_cli_android.Ctags.{Tag, empty_tag, skip_duplicates, remove_defined_protypes}
use arduino_cli_android.Ctags.Duplicates.{
  active, IsDeclared, skip_duplicates-Uniq, member-remove_defined_protypes,
}

abbrev tag_of : Text → Text → Tag
tag_of kind prototype = record empty_tag { kind = kind; prototype = prototype }

abbrev tags : List Tag
tags =
    tag_of (codes "prototype") (codes "void a();")
    ∷ tag_of (codes "function") (codes "void a();")
    ∷ tag_of (codes "function") (codes "void b();")
    ∷ tag_of (codes "function") (codes "void b();")
    ∷ []

skip_duplicates-Uniq_example :
    Uniq (active (skip_duplicates tags))
    × ((p : Text) → member p (active (skip_duplicates tags)) ≡ member p (active tags))
skip_duplicates-Uniq_example = skip_duplicates-Uniq tags

member-remove_defined_protypes_example :
    (member (codes "void b();") (active (remove_defined_protypes tags)) ≡ true)
    ↔ ((member (codes "void b();") (active tags) ≡ true) × ¬ IsDeclared (codes "void b();") tags)
member-remove_defined_protypes_example = member-remove_defined_protypes (codes "void b();") tags
