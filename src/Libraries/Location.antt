-- ===== src/Libraries/Location.antt =====
-- internal/arduino/libraries/libraries_location.go
use arduino_cli_android.Prelude.{
  Option, none, some, ◌≡◌, refl, ◌==◌, nat_eq, list_eq, if◌then◌else◌, list_beq, list_beq_iff,
  arith, ◌↔◌, ap, ◌∙◌,
}
use arduino_cli_android.Strings.{Text, codes}

-- The constants, in the order of the source.
pub data LibraryLocation : Type 0 where
  ide_builtin platform_builtin referenced_platform_builtin user unmanaged profile : LibraryLocation

-- The constants of the generated `rpc.LibraryLocation`.
pub data RpcLocation : Type 0 where
  rpc_builtin rpc_user rpc_platform_builtin rpc_referenced_platform_builtin rpc_unmanaged
        rpc_profile :
      RpcLocation

-- The text of `String`, which `MarshalJSON` writes as a JSON string.
unfoldable pub to_string : LibraryLocation → Text
to_string ide_builtin = codes "ide"
to_string platform_builtin = codes "platform"
to_string referenced_platform_builtin = codes "ref-platform"
to_string user = codes "user"
to_string unmanaged = codes "unmanaged"
to_string profile = codes "profile"

-- The `switch` of `UnmarshalJSON` on the text of the JSON string; `none` is the error.
unfoldable pub from_string : Text → Option LibraryLocation
from_string s =
    if s == codes "ide"
    then some ide_builtin
    else if s == codes "platform"
    then some platform_builtin
    else if s == codes "ref-platform"
    then some referenced_platform_builtin
    else if s == codes "user"
    then some user
    else if s == codes "unmanaged"
    then some unmanaged
    else if s == codes "profile"
    then some profile
    else none

unfoldable pub to_rpc : LibraryLocation → RpcLocation
to_rpc ide_builtin = rpc_builtin
to_rpc platform_builtin = rpc_platform_builtin
to_rpc referenced_platform_builtin = rpc_referenced_platform_builtin
to_rpc user = rpc_user
to_rpc unmanaged = rpc_unmanaged
to_rpc profile = rpc_profile

unfoldable pub from_rpc : RpcLocation → LibraryLocation
from_rpc rpc_builtin = ide_builtin
from_rpc rpc_platform_builtin = platform_builtin
from_rpc rpc_referenced_platform_builtin = referenced_platform_builtin
from_rpc rpc_user = user
from_rpc rpc_unmanaged = unmanaged
from_rpc rpc_profile = profile

text_back : (l : LibraryLocation) → from_string (to_string l) ≡ some l
unfolding from_string to_string list_beq
text_back ide_builtin = refl
text_back platform_builtin = refl
text_back referenced_platform_builtin = refl
text_back user = refl
text_back unmanaged = refl
text_back profile = refl

text_of : (s : Text) (l : LibraryLocation) → from_string s ≡ some l → s ≡ to_string l
unfolding from_string to_string
text_of s ide_builtin h = ground (
  arith,
  list_beq_iff s (codes "ide"),
  list_beq_iff s (codes "platform"),
  list_beq_iff s (codes "ref-platform"),
  list_beq_iff s (codes "user"),
  list_beq_iff s (codes "unmanaged"),
  list_beq_iff s (codes "profile"),
)
text_of s _ h = ground (
  arith,
  list_beq_iff s (codes "ide"),
  list_beq_iff s (codes "platform"),
  list_beq_iff s (codes "ref-platform"),
  list_beq_iff s (codes "user"),
  list_beq_iff s (codes "unmanaged"),
  list_beq_iff s (codes "profile"),
)

rpc_back : (k : LibraryLocation) → from_rpc (to_rpc k) ≡ k
unfolding from_rpc to_rpc
rpc_back ide_builtin = refl
rpc_back platform_builtin = refl
rpc_back referenced_platform_builtin = refl
rpc_back user = refl
rpc_back unmanaged = refl
rpc_back profile = refl

-- A location is read back from its text and from its number in the protocol, and only its own text
-- is read as it.
pub location_round_trip :
    (l : LibraryLocation)
    → ((s : Text) → (from_string s ≡ some l) ↔ (s ≡ to_string l)) × (from_rpc (to_rpc l) ≡ l)
location_round_trip l = (λ s. (text_of s l, λ e. ap from_string e ∙ text_back l), rpc_back l)
