-- ===== src/Config/Cli.antt =====
-- cli.go of internal/go-configmap: settings from the command line and from the environment.
use arduino_cli_android.Prelude.{
  ℕ, Bool, true, false, List, [], ◌∷◌, ◌++◌, Option, none, some, nat_eq, list_eq, if◌then◌else◌,
  lookup, assign, map, member, map_keys,
}
use arduino_cli_android.Strings.{Text, codes, split, is_empty, cut, replace_all, atoi, ℤ, NumError}
use arduino_cli_android.Config.Convert.{
  Scalar, text, flag, int, Leaf, scalar, array, SchemaType, one, slice, each, text_type, flag_type,
  uint_type,
}
use arduino_cli_android.Config.{
  Tree, leaf, sub, Entries, end, entry, Config, Result, ok, failed, panicked, SetError,
  key_not_found, unhandled_type, bad_value, not_an_array, set_key, delete_key,
}

-- `strconv.ParseBool`.
unfoldable pub parse_bool : Text → Option Bool
parse_bool s =
    if member s
      (codes "1" ∷ codes "t" ∷ codes "T" ∷ codes "TRUE" ∷ codes "true" ∷ codes "True" ∷ [])
    then some true
    else if member s
        (codes "0" ∷ codes "f" ∷ codes "F" ∷ codes "FALSE" ∷ codes "false" ∷ codes "False" ∷ [])
    then some false
    else none

-- The keys of the values, below a prefix.
unfoldable mutual
  pub tree_keys : Text → Text → Tree → List Text
  tree_keys prefix k (leaf l) = (prefix ++ k) ∷ []
  tree_keys prefix k (sub m) = value_keys (prefix ++ (k ++ codes ".")) m

  pub value_keys : Text → Entries → List Text
  value_keys prefix end = []
  value_keys prefix (entry k t m) = tree_keys prefix k t ++ value_keys prefix m

unfoldable pub all_keys : Config → List Text
all_keys c = if is_empty c.schema then value_keys [] c.values else map_keys c.schema

-- What a setting is read as: the value, or one of the errors.
pub data Reading : Type 0 where
  value : Leaf → Reading
  unread : SetError → Reading

-- `Atoi`; the error drops the number.
abbrev pub of_atoi : ℤ × Option NumError → Reading
of_atoi (n, none) = value (scalar (int n))
of_atoi (n, some e) = unread bad_value

abbrev pub of_bool : Option Bool → Reading
of_bool none = unread bad_value
of_bool (some b) = value (scalar (flag b))

abbrev pub text_element : Text → Option Scalar
text_element s = some (text s)

-- The switch on the type, with what it gives for a slice of strings.
unfoldable pub read_arg : SchemaType → Text → List Text → Reading
read_arg (one uint_type) arg items = of_atoi (atoi arg)
read_arg (one flag_type) arg items = of_bool (parse_bool arg)
read_arg (one text_type) arg items = value (scalar (text arg))
read_arg (slice (each text_type)) arg items =
    value (array (each text_type) (map text_element items))
read_arg _ arg items = unread unhandled_type

unfoldable pub is_string_slice : SchemaType → Bool
is_string_slice (slice (each text_type)) = true
is_string_slice _ = false

-- A call whose error is dropped, as are those without a schema.
unfoldable pub drop_result : Config → Result → Result
drop_result c (ok c') = ok c'
drop_result c (failed e) = ok c
drop_result c panicked = panicked

module _ (float_uint : ℕ → ℕ) (float_int : ℕ → ℤ) where
  unfoldable pub set_reading : Config → Text → Reading → Result
  set_reading c key (value v) = set_key float_uint float_int c key v
  set_reading c key (unread e) = failed e

  unfoldable pub set_from_env : Config → Text → Text → Result
  set_from_env c key arg =
      if is_empty c.schema
      then drop_result c (set_key float_uint float_int c key (scalar (text arg)))
      else elim (lookup key c.schema) [
        | none ↦ failed key_not_found
        | some t ↦ set_reading c key (read_arg t arg (split b' ' arg))
      ]

  -- The value of the arguments without a schema.
  unfoldable pub untyped_args : Text → List Text → Leaf
  untyped_args arg [] = scalar (text arg)
  untyped_args arg (arg' ∷ args) = array (each text_type) (map text_element (arg ∷ arg' ∷ args))

  -- An error of the reading comes before the one on too many values.
  unfoldable pub check_one : SchemaType → List Text → Reading → Reading
  check_one t more (unread e) = unread e
  check_one t more (value v) =
      if is_string_slice t then value v else if is_empty more then value v else unread not_an_array

  unfoldable pub set_from_cli_args : Config → Text → List Text → Result
  set_from_cli_args c key [] = ok (delete_key c key)
  set_from_cli_args c key (arg ∷ args) =
      if is_empty c.schema
      then drop_result c (set_key float_uint float_int c key (untyped_args arg args))
      else elim (lookup key c.schema) [
        | none ↦ failed key_not_found
        | some t ↦ set_reading c key (check_one t args (read_arg t arg (arg ∷ args)))
      ]

  -- `upper` is `strings.ToUpper`.
  module _ (upper : Text → Text) where
    unfoldable pub env_key : Text → Text → Text
    env_key prefix key = replace_all (codes ".") (codes "_") (prefix ++ upper key)

    -- The loop over the keys; a later key takes the place of an earlier one of the same name.
    unfoldable pub env_keys : Text → List Text → List (Text × Text) → List (Text × Text)
    env_keys prefix [] known = known
    env_keys prefix (k ∷ keys) known = env_keys prefix keys (assign (env_key prefix k) k known)

    -- One variable: the configuration after it, with its error.
    unfoldable pub inject_one : List (Text × Text) → Config → Text → Result
    inject_one keys c e = elim (cut b'=' e) [
      | none ↦ ok c
      | some (env, arg) ↦ elim (lookup (upper env) keys) [
        | none ↦ ok c
        | some key ↦ set_from_env c key arg
      ]
    ]

    -- The outer `none` is a panic.
    unfoldable pub inject_all :
        List (Text × Text) → Config → List Text → Option (Config × List SetError)
    inject_all keys c [] = some (c, [])
    inject_all keys c (e ∷ env) = elim (inject_one keys c e) [
      | ok c' ↦ inject_all keys c' env
      | failed err ↦ elim (inject_all keys c env) [
        | none ↦ none
        | some (c', errs) ↦ some (c', err ∷ errs)
      ]
      | panicked ↦ none
    ]

    unfoldable pub env_prefix : Text → Text
    env_prefix prefix = if is_empty prefix then [] else upper prefix ++ codes "_"

    unfoldable pub inject_env_vars : Config → List Text → Text → Option (Config × List SetError)
    inject_env_vars c env prefix = inject_all (env_keys (env_prefix prefix) (all_keys c) []) c env
