-- ===== src/Config/History.antt =====
-- Histories of settings: the types are kept, no setting panics, and neither do the reads by the type of the schema.
use arduino_cli_android.Prelude.{
  ℕ, List, [], ◌∷◌, Option, none, some, nat_eq, list_eq, ◌≡◌, refl, sym, subst, All,
}
use arduino_cli_android.Strings.{Text, ℤ}
use arduino_cli_android.Config.Convert.{SchemaType, Leaf, scalar_type_eq}
use arduino_cli_android.Config.{Config, Result, ok, failed, panicked, SetError, delete_key, set_key}
use arduino_cli_android.Config.Cli.{
  set_from_env, set_from_cli_args, inject_one, inject_all, inject_env_vars, env_keys, env_prefix,
  all_keys,
}
use arduino_cli_android.Config.Typed.{IsTyped, IsSeparated, IsTyped-delete_key}
use arduino_cli_android.Config.Settings.{IsProperLeaf, ResultOk-set_key}
use arduino_cli_android.Config.Invariant.{
  Safe, Safe-set_from_env, Safe-set_from_cli_args, Safe-inject_one,
}

-- A call of the package that changes a configuration.
pub data Operation : Type 0 where
  set_op : Text → Leaf → Operation
  env_op : Text → Text → Operation
  cli_op : Text → List Text → Operation
  delete_op : Text → Operation
  inject_op : List Text → Text → Operation

-- Only `Set` can be given nil or a slice with a nil element.
abbrev pub IsProperOperation : Operation → Type 0
IsProperOperation (set_op key v) = IsProperLeaf v
IsProperOperation _ = Unit

-- A caller goes on with the configuration, whether or not there was an error.
unfoldable pub after : Config → Result → Option Config
after c (ok c') = some c'
after c (failed e) = some c
after c panicked = none

abbrev pub after_inject : Option (Config × List SetError) → Option Config
after_inject none = none
after_inject (some (c, errs)) = some c

module _ (float_uint : ℕ → ℕ) (float_int : ℕ → ℤ) (upper : Text → Text) where
  unfoldable pub run : Operation → Config → Option Config
  run (set_op key v) c = after c (set_key float_uint float_int c key v)
  run (env_op key arg) c = after c (set_from_env float_uint float_int c key arg)
  run (cli_op key args) c = after c (set_from_cli_args float_uint float_int c key args)
  run (delete_op key) c = some (delete_key c key)
  run (inject_op env prefix) c =
      after_inject (inject_env_vars float_uint float_int upper c env prefix)

  unfoldable pub run_all : List Operation → Config → Option Config
  run_all [] c = some c
  run_all (op ∷ ops) c = elim (run op c) [ none ↦ none | some c' ↦ run_all ops c' ]

  -- It went well: a configuration with the schema and the types came out.
  abbrev pub WentWell : List (Text × SchemaType) → Option Config → Type 0
  WentWell schema none = ⊥
  WentWell schema (some c) = (c.schema ≡ schema) × IsTyped c

  WentWell-after :
      (c : Config) (r : Result)
      → IsTyped c
      → Safe float_uint float_int c.schema r
      → WentWell c.schema (after c r)
  unfolding after
  WentWell-after c (ok c') typed h = h
  WentWell-after c (failed e) typed h = (refl, typed)
  WentWell-after c panicked typed h = absurd h

  inject_error :
      (schema : List (Text × SchemaType)) (e : SetError) (o : Option (Config × List SetError))
      → WentWell schema (after_inject o)
      → WentWell schema
          (after_inject (elim o [ none ↦ none | some (c', errs) ↦ some (c', e ∷ errs) ]))
  inject_error schema e none h = h
  inject_error schema e (some (c', errs)) h = h

  WentWell-inject_rest :
      (keys : List (Text × Text)) (c : Config) (env : List Text) (r : Result)
      → ((c' : Config)
          → (c'.schema ≡ c.schema)
          → IsTyped c'
          → WentWell c.schema (after_inject (inject_all float_uint float_int upper keys c' env)))
      → IsTyped c
      → Safe float_uint float_int c.schema r
      → WentWell c.schema (
          after_inject (elim r [
            | ok c' ↦ inject_all float_uint float_int upper keys c' env
            | failed err ↦ elim (inject_all float_uint float_int upper keys c env) [
              | none ↦ none
              | some (c', errs) ↦ some (c', err ∷ errs)
            ]
            | panicked ↦ none
          ]))
  WentWell-inject_rest keys c env (ok c') rest typed h = rest c' h.0 h.1
  WentWell-inject_rest keys c env (failed e) rest typed h =
      inject_error c.schema e (inject_all float_uint float_int upper keys c env) (rest c refl typed)
  WentWell-inject_rest keys c env panicked rest typed h = absurd h

  WentWell-inject_all :
      (keys : List (Text × Text)) (c : Config) (env : List Text)
      → IsSeparated c.schema
      → IsTyped c
      → WentWell c.schema (after_inject (inject_all float_uint float_int upper keys c env))
  unfolding inject_all
  WentWell-inject_all keys c [] apart typed = (refl, typed)
  WentWell-inject_all keys c (e ∷ env) apart typed =
      WentWell-inject_rest keys c env (inject_one float_uint float_int upper keys c e)
        (λ c' q typed'.
          subst
            (λ (schema : List (Text × SchemaType)).
              WentWell schema (after_inject (inject_all float_uint float_int upper keys c' env)))
            q (WentWell-inject_all keys c' env (subst IsSeparated (sym q) apart) typed'))
        typed (Safe-inject_one float_uint float_int c apart typed upper keys e)

  WentWell-run :
      (op : Operation) (c : Config)
      → IsSeparated c.schema
      → IsTyped c
      → IsProperOperation op
      → WentWell c.schema (run op c)
  unfolding run delete_key inject_env_vars
  WentWell-run (set_op key v) c apart typed h =
      WentWell-after c (set_key float_uint float_int c key v) typed
        (ResultOk-set_key float_uint float_int c key v apart typed h)
  WentWell-run (env_op key arg) c apart typed h =
      WentWell-after c (set_from_env float_uint float_int c key arg) typed
        (Safe-set_from_env float_uint float_int c apart typed key arg)
  WentWell-run (cli_op key args) c apart typed h =
      WentWell-after c (set_from_cli_args float_uint float_int c key args) typed
        (Safe-set_from_cli_args float_uint float_int c apart typed key args)
  WentWell-run (delete_op key) c apart typed h = (refl, IsTyped-delete_key c key typed)
  WentWell-run (inject_op env prefix) c apart typed h =
      WentWell-inject_all
        (env_keys float_uint float_int upper (env_prefix float_uint float_int upper prefix)
          (all_keys c) [])
        c env apart typed

  WentWell-run_rest :
      (schema : List (Text × SchemaType)) (ops : List Operation) (o : Option Config)
      → ((c' : Config) → (c'.schema ≡ schema) → IsTyped c' → WentWell schema (run_all ops c'))
      → WentWell schema o
      → WentWell schema (elim o [ none ↦ none | some c' ↦ run_all ops c' ])
  WentWell-run_rest schema ops none rest h = absurd h
  WentWell-run_rest schema ops (some c') rest h = rest c' h.0 h.1

  -- Settings of all kinds, in any order, never panic on a configuration that holds values of the types of its schema,
  -- slices with their elements included, and leave such a configuration with the same schema. No key of the
  -- schema leads below another, neither nil nor a slice with a nil element is set, and a slice of scalars of
  -- one type that is set holds scalars of that type.
  pub run_all-IsTyped :
      (ops : List Operation) (c : Config)
      → IsSeparated c.schema
      → IsTyped c
      → All IsProperOperation ops
      → WentWell c.schema (run_all ops c)
  unfolding run_all
  run_all-IsTyped [] c apart typed h = (refl, typed)
  run_all-IsTyped (op ∷ ops) c apart typed h =
      WentWell-run_rest c.schema ops (run op c)
        (λ c' q typed'.
          subst (λ (schema : List (Text × SchemaType)). WentWell schema (run_all ops c')) q
            (run_all-IsTyped ops c' (subst IsSeparated (sym q) apart) typed' h.1))
        (WentWell-run op c apart typed h.0)
