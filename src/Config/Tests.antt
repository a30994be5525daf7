-- ===== src/Config/Tests.antt =====
-- A configuration like that of the program, with a port and a list of addresses.
use arduino_cli_android.Prelude.{
  ℕ, List, [], ◌∷◌, none, some, ◌≡◌, ◌≢◌, ◌⊎◌, refl, sym, subst, ◌∙◌, arith, inl, inr, list_eq,
  nat_eq, list_beq, list_beq_iff, lookup, Bool-cases, ◌==◌,
}
use arduino_cli_android.Strings.{Text, codes, split, ℤ, pos}
use arduino_cli_android.Config.Convert.{
  text, uint, uint_type, any_type, each, text_type, SchemaType, one, slice, Leaf, scalar, array,
  scalar_type_eq, invalid, nil_panic, convert_number, convert_scalar, convert_all, convert_array,
  try_conversion,
}
use arduino_cli_android.Config.{
  leaf, sub, Entries, end, entry, Config, path, get, get_ok, put, delete_key, get_string_slice,
}
use arduino_cli_android.Config.Access.{AreApart}
use arduino_cli_android.Config.Typed.{IsTyped-start, IsTyped-put, IsSeparated}
use arduino_cli_android.Config.History.{
  Operation, set_op, cli_op, run_all, WentWell, run_all-IsTyped,
}
use arduino_cli_android.Config.Merge.{kind_of, target, merge, kind-merge}
use arduino_cli_android.Config.Reads.{ReadsWell-IsTyped, get_ok-put, get_ok-delete_key}

abbrev port : Text
port = codes "daemon.port"

abbrev urls : Text
urls = codes "board_manager.additional_urls"

abbrev fresh : Config
fresh = record {
  values = end;
  schema = (port, one uint_type) ∷ (urls, slice (each text_type)) ∷ [];
}

port-AreApart : AreApart (path port) (path urls)
unfolding split
port-AreApart = inl (λ e. ground (arith, e))

urls-AreApart : AreApart (path urls) (path port)
unfolding split
urls-AreApart = inl (λ e. ground (arith, e))

is_a_key :
    (key : Text) (t : SchemaType) → lookup key fresh.schema ≡ some t → (port ≡ key) ⊎ (urls ≡ key)
unfolding lookup
is_a_key key t h = elim (Bool-cases (port == key)) [
  | inl e ↦ inl ((list_beq_iff port key).0 e)
  | inr e ↦ elim (Bool-cases (urls == key)) [
    | inl f ↦ inr ((list_beq_iff urls key).0 f)
    | inr f ↦ let h' = rw (e, f, lookup) at h in cc h'
  ]
]

fresh-IsSeparated : IsSeparated fresh.schema
fresh-IsSeparated key j t u k k' ne = elim (is_a_key key t k) [
  | inl e ↦ elim (is_a_key j u k') [
    | inl f ↦ absurd (ne (sym e ∙ f))
    | inr f ↦
        subst (λ i. AreApart (path i) (path j)) e
          (subst (λ i. AreApart (path port) (path i)) f port-AreApart)
  ]
  | inr e ↦ elim (is_a_key j u k') [
    | inl f ↦
        subst (λ i. AreApart (path i) (path j)) e
          (subst (λ i. AreApart (path urls) (path i)) f urls-AreApart)
    | inr f ↦ absurd (ne (sym e ∙ f))
  ]
]

abbrev no_uint : ℕ → ℕ
no_uint bits = 0

abbrev no_int : ℕ → ℤ
no_int bits = pos 0

abbrev as_is : Text → Text
as_is s = s

abbrev settings : List Operation
settings =
    cli_op port (codes "50051" ∷ [])
    ∷ cli_op urls (codes "http" ∷ codes "file" ∷ [])
    ∷ set_op port (scalar (text (codes "none")))
    ∷ set_op urls (array any_type (some (text (codes "ftp")) ∷ some (uint 21) ∷ []))
    ∷ []

run_all-IsTyped_example :
    WentWell no_uint no_int as_is fresh.schema (run_all no_uint no_int as_is settings fresh)
run_all-IsTyped_example =
    run_all-IsTyped no_uint no_int as_is settings fresh fresh-IsSeparated
      (IsTyped-start fresh.schema) (tt, (tt, (tt, ((tt, (tt, tt)), tt))))

abbrev with_port : Config
with_port = put fresh port (scalar (uint 50051))

abbrev two_urls : Leaf
two_urls = array (each text_type) (some (text (codes "http")) ∷ some (text (codes "file")) ∷ [])

urls_type : lookup urls fresh.schema ≡ some (slice (each text_type))
unfolding lookup list_beq
urls_type = refl

ReadsWell-IsTyped_example : get_string_slice (put fresh urls two_urls) urls ≢ none
ReadsWell-IsTyped_example =
    ReadsWell-IsTyped (put fresh urls two_urls) urls (slice (each text_type))
      (IsTyped-put fresh urls (slice (each text_type)) two_urls fresh-IsSeparated
        (IsTyped-start fresh.schema) urls_type refl (refl, (refl, tt)))
      urls_type

-- The call panics at a nil element, if none before it is refused.
nil_elements :
    (try_conversion no_uint no_int
        (array any_type (some (text []) ∷ none ∷ []))
        (slice (each text_type))
      ≡ nil_panic)
    × (try_conversion no_uint no_int
          (array any_type (some (uint 1) ∷ none ∷ []))
          (slice (each text_type))
        ≡ invalid)
unfolding try_conversion convert_array convert_all convert_scalar convert_number
nil_elements = (refl, refl)

get_ok-put_example :
    (get_ok (put with_port port (scalar (uint 1))) port ≡ some (leaf (scalar (uint 1))))
    × (get_ok (put with_port port (scalar (uint 1))) urls ≡ get_ok with_port urls)
get_ok-put_example = get_ok-put with_port port urls (scalar (uint 1)) port-AreApart

get_ok-delete_key_example :
    (get_ok (delete_key with_port port) port ≡ none)
    × (get_ok (delete_key with_port port) urls ≡ get_ok with_port urls)
get_ok-delete_key_example = get_ok-delete_key with_port port urls port-AreApart

abbrev given : Entries
given = entry (codes "daemon") (sub (entry (codes "port") (leaf (scalar (uint 7))) end)) end

kind-merge_example :
    kind_of (get (path port) (target (merge with_port.values given)))
    ≡ kind_of (get (path port) with_port.values)
kind-merge_example = kind-merge with_port.values given (path port)
