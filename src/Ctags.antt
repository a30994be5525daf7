-- ===== src/Ctags.antt =====
-- internal/arduino/builder/internal/preprocessor/internal/ctags/ctags_parser.go: the rows of ctags as tags,
-- and the passes that mark the tags that get no prototype.
pub mod Duplicates
mod Tests
use arduino_cli_android.Prelude.{
  ℕ, ◌+◌, ◌-◌, Bool, true, false, not, ◌&&◌, ◌||◌, List, [], ◌∷◌, ◌++◌, Option, none, some, ◌==◌,
  nat_eq, list_eq, if◌then◌else◌, take, drop, leb, member,
}
use arduino_cli_android.Strings.{
  Text, ℤ, pos, codes, index, contains, replace_all, split, cut, trim_space, atoi, is_empty,
}

pub record Tag : Type 0 where
  pub function_name : Text
  pub kind : Text
  pub line : ℤ
  pub code : Text
  pub class_name : Text
  pub struct_name : Text
  pub namespace : Text
  pub filename : Text
  pub typeref : Text
  pub skip_me : Bool
  pub signature : Text
  pub prototype : Text
  pub prototype_modifiers : Text

unfoldable pub remove_empty : List Text → List Text
remove_empty [] = []
remove_empty (row ∷ rows) =
    let rest = remove_empty rows in
    let trimmed = trim_space row in if is_empty trimmed then rest else trimmed ∷ rest

-- The tag and the return type that the loop of `parseTag` has read.
unfoldable pub set_field : Text → Text → Tag × Text → Tag × Text
set_field field value (tag, return_type) =
    if field == codes "kind"
    then (record tag { kind = value }, return_type)
    else if field == codes "line"
    then (record tag { line = (atoi value).0 }, return_type)
    else if field == codes "typeref"
    then (record tag { typeref = value }, return_type)
    else if field == codes "signature"
    then (record tag { signature = value }, return_type)
    else if field == codes "returntype"
    then (tag, value)
    else if field == codes "class"
    then (record tag { class_name = value }, return_type)
    else if field == codes "struct"
    then (record tag { struct_name = value }, return_type)
    else if field == codes "namespace"
    then (record tag { namespace = value }, return_type)
    else (tag, return_type)

unfoldable pub read_part : Text → Tag × Text → Tag × Text
read_part part read = elim (cut b':' part) [
  | none ↦ read
  | some (field, value) ↦ set_field field (trim_space value) read
]

unfoldable pub read_parts : List Text → Tag × Text → Tag × Text
read_parts [] read = read
read_parts (part ∷ parts) read = read_parts parts (read_part part read)

unfoldable pub with_prototype : Tag × Text → Tag
with_prototype (tag, return_type) = record tag {
  prototype = return_type ++ (b' ' ∷ (tag.function_name ++ (tag.signature ++ codes ";")));
}

-- `row[from+2 : to]`; `none` is the panic where the slice ends before it starts.
unfoldable pub slice : Text → ℕ → ℕ → Option Text
slice row from to = if leb (from + 2) to then some (drop (from + 2) (take to row)) else none

unfoldable pub with_code : Text → Tag → Option Tag
with_code row tag = elim (index (codes "/^") row) [
  | none ↦ some tag
  | some from ↦ elim (index (codes "$/;") row) [
    | none ↦ some tag
    | some to ↦ elim (slice row from to) [
      | none ↦ none
      | some code ↦ some (record tag { code = code })
    ]
  ]
]

abbrev pub empty_tag : Tag
empty_tag = record {
  function_name = [];
  kind = [];
  line = pos 0;
  code = [];
  class_name = [];
  struct_name = [];
  namespace = [];
  filename = [];
  typeref = [];
  skip_me = false;
  signature = [];
  prototype = [];
  prototype_modifiers = [];
}

-- `none` is a panic; a row without a tab has no second part.
unfoldable pub parse_split : Text → List Text → Option Tag
parse_split row (function_name ∷ filename ∷ parts) = with_code row (
    with_prototype (
      read_parts parts (
        record empty_tag {
          function_name = function_name;
          filename = replace_all (codes "\\\\") (codes "\\") filename;
        },
        [],
      )))
parse_split row _ = none

unfoldable pub parse_tag : Text → Option Tag
parse_tag row = parse_split row (split b'\t' row)

unfoldable pub is_handled : Tag → Bool
is_handled tag =
    if not (is_empty tag.class_name)
    then false
    else if not (is_empty tag.struct_name)
    then false
    else if not (is_empty tag.namespace)
    then false
    else true

unfoldable pub tag_is_unhandled : Tag → Bool
tag_is_unhandled tag = not (is_handled tag)

unfoldable pub tag_is_unknown : Tag → Bool
tag_is_unknown tag = not (member tag.kind (codes "prototype" ∷ codes "function" ∷ []))

abbrev pub skip : Tag → Tag
skip tag = record tag { skip_me = true }

-- The test is a pure one: `tagIsUnknown` or `tagIsUnhandled`.
unfoldable pub skip_tags_where : (Tag → Bool) → List Tag → List Tag
skip_tags_where skip_func [] = []
skip_tags_where skip_func (tag ∷ tags) =
    (if tag.skip_me then tag else record tag { skip_me = skip_func tag })
    ∷ skip_tags_where skip_func tags

-- The first loop of `removeDefinedProtypes`: the prototypes of the tags of that kind.
unfoldable pub defined_prototypes : List Tag → List Text
defined_prototypes [] = []
defined_prototypes (tag ∷ tags) =
    let rest = defined_prototypes tags in
    if tag.kind == codes "prototype" then tag.prototype ∷ rest else rest

unfoldable pub skip_defined : List Text → List Tag → List Tag
skip_defined defined [] = []
skip_defined defined (tag ∷ tags) =
    (if member tag.prototype defined then skip tag else tag) ∷ skip_defined defined tags

unfoldable pub remove_defined_protypes : List Tag → List Tag
remove_defined_protypes tags = skip_defined (defined_prototypes tags) tags

-- The loop of `skipDuplicates`, with the prototypes that it has seen.
unfoldable pub skip_seen : List Text → List Tag → List Tag
skip_seen seen [] = []
skip_seen seen (tag ∷ tags) =
    let first = not (member tag.prototype seen) && not tag.skip_me in
    (if first then tag else skip tag)
    ∷ skip_seen (if first then tag.prototype ∷ seen else seen) tags

unfoldable pub skip_duplicates : List Tag → List Tag
skip_duplicates tags = skip_seen [] tags
