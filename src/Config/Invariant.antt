-- ===== src/Config/Invariant.antt =====
-- Every way to set a value keeps the types of a configuration, and the reads by type do not panic on it.
use arduino_cli_android.Prelude.{
  ℕ, All, map, Bool, List, [], ◌∷◌, Option, none, some, nat_eq, list_eq, lookup, refl, inl, inr,
  Bool-cases, Option-cases,
}
use arduino_cli_android.Strings.{Text, split, cut, is_empty, ℤ, NumError, atoi}
use arduino_cli_android.Config.Convert.{
  text, text_type, flag_type, uint_type, int_type, uint32_type, float_type, any_type, each,
  SchemaType, one, slice, scalar, scalar_type_eq,
}
use arduino_cli_android.Config.{Config, Result, ok, failed, panicked, delete_key, set_key}
use arduino_cli_android.Config.Cli.{
  text_element, Reading, value, unread, parse_bool, of_atoi, of_bool, read_arg, is_string_slice,
  drop_result, set_reading, set_from_env, untyped_args, check_one, set_from_cli_args, inject_one,
}
use arduino_cli_android.Config.Typed.{IsElement, IsTyped, IsSeparated, IsTyped-delete_key}
use arduino_cli_android.Config.Settings.{IsProperLeaf, ResultOk, ResultOk-set_key}

module _ (float_uint : ℕ → ℕ) (float_int : ℕ → ℤ) where
  abbrev pub Safe : List (Text × SchemaType) → Result → Type 0
  Safe = ResultOk float_uint float_int

  -- What is read from an argument is a value other than nil.
  abbrev IsProper : Reading → Type 0
  IsProper (value v) = IsProperLeaf v
  IsProper (unread e) = Unit

  IsProper-of_atoi : (x : ℤ × Option NumError) → IsProper (of_atoi x)
  IsProper-of_atoi (n, none) = tt
  IsProper-of_atoi (n, some e) = tt

  IsProper-of_bool : (o : Option Bool) → IsProper (of_bool o)
  IsProper-of_bool none = tt
  IsProper-of_bool (some b) = tt

  text_elements : (items : List Text) → All (IsElement (each text_type)) (map text_element items)
  text_elements [] = tt
  text_elements (s ∷ items) = (refl, text_elements items)

  IsProper-read_arg :
      (t : SchemaType) (arg : Text) (items : List Text) → IsProper (read_arg t arg items)
  unfolding read_arg
  IsProper-read_arg (one uint_type) arg items = IsProper-of_atoi (atoi arg)
  IsProper-read_arg (one flag_type) arg items = IsProper-of_bool (parse_bool arg)
  IsProper-read_arg (one text_type) arg items = tt
  IsProper-read_arg (one int_type) arg items = tt
  IsProper-read_arg (one uint32_type) arg items = tt
  IsProper-read_arg (one float_type) arg items = tt
  IsProper-read_arg (slice any_type) arg items = tt
  IsProper-read_arg (slice (each text_type)) arg items = text_elements items
  IsProper-read_arg (slice (each flag_type)) arg items = tt
  IsProper-read_arg (slice (each uint_type)) arg items = tt
  IsProper-read_arg (slice (each int_type)) arg items = tt
  IsProper-read_arg (slice (each uint32_type)) arg items = tt
  IsProper-read_arg (slice (each float_type)) arg items = tt

  IsProper-check_one :
      (t : SchemaType) (more : List Text) (r : Reading)
      → IsProper r
      → IsProper (check_one float_uint float_int t more r)
  unfolding check_one
  IsProper-check_one t more (unread e) h = tt
  IsProper-check_one t more (value v) h = elim (Bool-cases (is_string_slice t)) [
    | inl e ↦ rw e h
    | inr e ↦ elim (Bool-cases (is_empty more)) [ inl f ↦ rw (e, f) h | inr f ↦ rw (e, f) tt ]
  ]

  module _ (c : Config) (apart : IsSeparated c.schema) (typed : IsTyped c) where
    Safe-set_reading :
        (key : Text) (r : Reading)
        → IsProper r
        → Safe c.schema (set_reading float_uint float_int c key r)
    unfolding set_reading
    Safe-set_reading key (value v) h = ResultOk-set_key float_uint float_int c key v apart typed h
    Safe-set_reading key (unread e) h = tt

    Safe-drop_result : (r : Result) → Safe c.schema r → Safe c.schema (drop_result c r)
    unfolding drop_result
    Safe-drop_result (ok c') h = h
    Safe-drop_result (failed e) h = (refl, typed)
    Safe-drop_result panicked h = h

    pub Safe-set_from_env :
        (key arg : Text) → Safe c.schema (set_from_env float_uint float_int c key arg)
    unfolding set_from_env
    Safe-set_from_env key arg = elim (Bool-cases (is_empty c.schema)) [
      | inl e ↦
          let v = scalar (text arg) in
          rw e (
            Safe-drop_result (set_key float_uint float_int c key v)
              (ResultOk-set_key float_uint float_int c key v apart typed tt))
      | inr e ↦ elim (Option-cases (lookup key c.schema)) [
        | inl k ↦ rw (e, k, set_from_env) tt
        | inr (t, k) ↦
            let r = read_arg t arg (split b' ' arg) in
            rw (e, k, set_from_env)
              (Safe-set_reading key r (IsProper-read_arg t arg (split b' ' arg)))
      ]
    ]

    IsProperLeaf-untyped_args :
        (arg : Text) (args : List Text) → IsProperLeaf (untyped_args float_uint float_int arg args)
    unfolding untyped_args
    IsProperLeaf-untyped_args arg [] = tt
    IsProperLeaf-untyped_args arg (arg' ∷ args) = text_elements (arg ∷ arg' ∷ args)

    pub Safe-set_from_cli_args :
        (key : Text) (args : List Text)
        → Safe c.schema (set_from_cli_args float_uint float_int c key args)
    unfolding set_from_cli_args delete_key
    Safe-set_from_cli_args key [] = (refl, IsTyped-delete_key c key typed)
    Safe-set_from_cli_args key (arg ∷ args) = elim (Bool-cases (is_empty c.schema)) [
      | inl e ↦
          let v = untyped_args float_uint float_int arg args in
          rw e (
            Safe-drop_result (set_key float_uint float_int c key v) (
              ResultOk-set_key float_uint float_int c key v apart typed
                (IsProperLeaf-untyped_args arg args)))
      | inr e ↦ elim (Option-cases (lookup key c.schema)) [
        | inl k ↦ rw (e, k, set_from_cli_args) tt
        | inr (t, k) ↦
            let r = read_arg t arg (arg ∷ args) in
            rw (e, k, set_from_cli_args)
              (Safe-set_reading key (check_one float_uint float_int t args r)
                (IsProper-check_one t args r (IsProper-read_arg t arg (arg ∷ args))))
      ]
    ]

    pub Safe-inject_one :
        (upper : Text → Text) (keys : List (Text × Text)) (e : Text)
        → Safe c.schema (inject_one float_uint float_int upper keys c e)
    unfolding inject_one
    Safe-inject_one upper keys e = elim (Option-cases (cut b'=' e)) [
      | inl h ↦ rw (h, inject_one) (refl, typed)
      | inr ((env, arg), h) ↦ elim (Option-cases (lookup (upper env) keys)) [
        | inl k ↦ rw (h, k, inject_one) (refl, typed)
        | inr (key, k) ↦ rw (h, k, inject_one) (Safe-set_from_env key arg)
      ]
    ]
