-- ===== src/Cpp/DepFile.antt =====
-- internal/arduino/builder/cpp/depfile.go: the list of dependencies that the compiler writes.
pub mod RoundTrip
use arduino_cli_android.Prelude.{
  ℕ, Bool, true, false, not, List, [], ◌∷◌, ◌++◌, map, Option, none, some, ◌==◌, nat_eq,
  if◌then◌else◌,
}
use arduino_cli_android.Strings.{
  Text, codes, is_empty, is_space, trim_space, has_suffix, trim_suffix,
}

pub record Dependencies : Type 0 where
  pub object_file : Text
  pub dependencies : List Text

pub data DepFileError : Type 0 where
  no_colon unclosed_escape : DepFileError
  invalid_dollar_sequence : ℕ → DepFileError

pub data Fallible (A : Type 0) : Type 0 where
  failed : DepFileError → Fallible A
  done : A → Fallible A

-- The flags `backslash` and `dollar`, of which at most one is set.
pub data Pending : Type 0 where
  plain backslash dollar : Pending

-- The variables of the loop of `unescapeAndSplit`.
pub record State : Type 0 where
  pub pending : Pending
  pub current : Text
  pub res : List Text

-- `current.WriteRune`, with the flags cleared.
unfoldable pub write : State → Text → State
write st s = record { pending = plain; current = st.current ++ s; res = st.res }

-- The body of the loop where no flag is set.
unfoldable pub step_plain : State → ℕ → State
step_plain st c =
    if c == b'\\'
    then record { pending = backslash; current = st.current; res = st.res }
    else if c == b'$'
    then record { pending = dollar; current = st.current; res = st.res }
    else if is_space c
    then (if is_empty st.current
        then st
        else record { pending = plain; current = []; res = st.res ++ (st.current ∷ []) })
    else write st (c ∷ [])

unfoldable pub step_backslash : State → ℕ → State
step_backslash st c =
    if c == b' '
    then write st (codes " ")
    else if c == b'#'
    then write st (codes "#")
    else if c == b'\\'
    then write st (codes "\\")
    else if c == b'\n'
    then write st []
    else write st (b'\\' ∷ c ∷ [])

unfoldable pub step_dollar : State → ℕ → Fallible State
step_dollar st c =
    if c == b'$' then done (write st (codes "$")) else failed (invalid_dollar_sequence c)

unfoldable pub step_pending : Pending → State → ℕ → Fallible State
step_pending plain st c = done (step_plain st c)
step_pending backslash st c = done (step_backslash st c)
step_pending dollar st c = step_dollar st c

unfoldable pub step : State → ℕ → Fallible State
step st c = if c == b'\r' then done st else step_pending st.pending st c

unfoldable pub scan : State → Text → Fallible State
scan st [] = done st
scan st (c ∷ s) = elim (step st c) [ failed e ↦ failed e | done st' ↦ scan st' s ]

unfoldable pub drop_empty : List Text → List Text
drop_empty [] = []
drop_empty (w ∷ ws) = let rest = drop_empty ws in if is_empty w then rest else w ∷ rest

-- What follows the loop, by the flags that it leaves.
unfoldable pub finish : Pending → State → Fallible (List Text)
finish dollar st = failed unclosed_escape
finish _ st =
    let res = if is_empty st.current then st.res else st.res ++ (st.current ∷ []) in
    done (drop_empty (map trim_space res))

unfoldable pub unescape_and_split : Text → Fallible (List Text)
unescape_and_split s = elim (scan (record { pending = plain; current = []; res = [] }) s) [
  | failed e ↦ failed e
  | done st ↦ finish st.pending st
]

unfoldable pub from_rows : List Text → Fallible Dependencies
from_rows [] = done (record { object_file = []; dependencies = [] })
from_rows (row ∷ rows) =
    if not (has_suffix (codes ":") row)
    then failed no_colon
    else done (record { object_file = trim_suffix (codes ":") row; dependencies = rows })

unfoldable pub read_dep_file : Text → Fallible Dependencies
read_dep_file dep_file = elim (unescape_and_split dep_file) [
  | failed e ↦ failed e
  | done rows ↦ from_rows rows
]
