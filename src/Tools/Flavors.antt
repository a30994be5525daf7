-- ===== src/Tools/Flavors.antt =====
-- internal/arduino/cores/tools.go, `Flavor` and `GetFlavourCompatibleWith`.
pub mod Choice
use arduino_cli_android.Prelude.{
  ℕ, suc, ◌+◌, Bool, true, false, List, [], ◌∷◌, ◌++◌, Option, none, some, ◌==◌, nat_eq, list_eq,
  ltb, if◌then◌else◌, ◌&&◌,
}
use arduino_cli_android.Strings.{Text, codes}
use arduino_cli_android.Regex.{Regex, range, dot, seq, alt, star, text, optional, match_string}

-- The resource of a flavour is what the caller downloads; only its identity matters here.
pub record Flavor : Type 0 where
  pub os : Text
  pub resource : ℕ

abbrev any_text : Regex
any_text = star dot

-- `i[3456]86`, `(aarch64|arm64)`, `(amd64|x86_64)`, `(mingw32|cygwin)`, `[0-9]*`.
abbrev x86_32 : Regex
x86_32 = seq (text (codes "i")) (seq (range b'3' b'6') (text (codes "86")))

abbrev arm_64 : Regex
arm_64 = alt (text (codes "aarch64")) (text (codes "arm64"))

abbrev x86_64 : Regex
x86_64 = alt (text (codes "amd64")) (text (codes "x86_64"))

abbrev windows : Regex
windows = alt (text (codes "mingw32")) (text (codes "cygwin"))

abbrev number : Regex
number = star (range b'0' b'9')

unfoldable pub linux_arm : Regex
unfolding text
linux_arm = seq (text (codes "arm")) (seq any_text (text (codes "-linux-gnueabihf")))

unfoldable pub linux_arm64 : Regex
unfolding text
linux_arm64 = seq arm_64 (text (codes "-linux-gnu"))

unfoldable pub linux_riscv64 : Regex
unfolding text
linux_riscv64 = text (codes "riscv64-linux-gnu")

unfoldable pub linux64 : Regex
unfolding text
linux64 = seq (text (codes "x86_64-")) (seq any_text (text (codes "linux-gnu")))

unfoldable pub linux32 : Regex
unfolding text
linux32 = seq x86_32 (seq (text (codes "-")) (seq any_text (text (codes "linux-gnu"))))

unfoldable pub windows32 : Regex
unfolding text
windows32 = seq x86_32 (seq (text (codes "-")) (seq any_text windows))

unfoldable pub windows64 : Regex
unfolding text
windows64 = seq x86_64 (seq (text (codes "-")) (seq any_text windows))

unfoldable pub windows_arm64 : Regex
unfolding text
windows_arm64 = seq arm_64 (seq (text (codes "-")) (seq any_text windows))

unfoldable pub mac64 : Regex
unfolding text
mac64 = seq (text (codes "x86_64-apple-darwin")) any_text

unfoldable pub mac32 : Regex
unfolding text
mac32 = seq x86_32 (seq (text (codes "-apple-darwin")) any_text)

unfoldable pub mac_arm64 : Regex
unfolding text
mac_arm64 = seq (text (codes "arm64-apple-darwin")) any_text

unfoldable pub freebsd_arm : Regex
unfolding text
freebsd_arm = seq (text (codes "arm")) (seq any_text (seq (text (codes "-freebsd")) number))

unfoldable pub freebsd32 : Regex
unfolding text optional
freebsd32 =
    seq (optional (text (codes "i")))
      (seq (range b'3' b'6') (seq (text (codes "86-freebsd")) number))

unfoldable pub freebsd64 : Regex
unfolding text
freebsd64 = seq (text (codes "amd64-freebsd")) number

-- `osName + "," + osArch`
abbrev pub host : Text → Text → Text
host os_name os_arch = os_name ++ (b',' ∷ os_arch)

-- The `switch` of `isExactMatchWith`.
unfoldable pub exact_pattern : Text → Option Regex
exact_pattern h =
    if h == codes "linux,arm"
    then some linux_arm
    else if h == codes "linux,armbe"
    then some linux_arm
    else if h == codes "linux,arm64"
    then some linux_arm64
    else if h == codes "linux,riscv64"
    then some linux_riscv64
    else if h == codes "linux,amd64"
    then some linux64
    else if h == codes "linux,386"
    then some linux32
    else if h == codes "windows,386"
    then some windows32
    else if h == codes "windows,amd64"
    then some windows64
    else if h == codes "windows,arm64"
    then some windows_arm64
    else if h == codes "darwin,arm64"
    then some mac_arm64
    else if h == codes "darwin,amd64"
    then some mac64
    else if h == codes "darwin,386"
    then some mac32
    else if h == codes "freebsd,arm"
    then some freebsd_arm
    else if h == codes "freebsd,386"
    then some freebsd32
    else if h == codes "freebsd,amd64"
    then some freebsd64
    else none

unfoldable pub is_exact_match_with : Flavor → Text → Text → Bool
unfolding exact_pattern match_string
is_exact_match_with f os_name os_arch =
    if f.os == codes "all"
    then true
    else elim (exact_pattern (host os_name os_arch)) [ none ↦ false | some r ↦ match_string r f.os ]

-- The `switch` of `isCompatibleWith`: a host that can run a flavour made for another.
unfoldable pub compatible_by_emulation : Flavor → Text → Bool × ℕ
unfolding match_string
compatible_by_emulation f h =
    if h == codes "android,arm"
    then (match_string linux_arm f.os, 50)
    else if h == codes "android,arm64"
    then (match_string linux_arm64 f.os, 50)
    else if h == codes "android,amd64"
    then (match_string linux64 f.os, 50)
    else if h == codes "android,386"
    then (match_string linux32 f.os, 50)
    else if h == codes "windows,amd64"
    then (match_string windows32 f.os, 10)
    else if h == codes "windows,arm64"
    then (if match_string windows64 f.os then (true, 20) else (match_string windows32 f.os, 10))
    else if h == codes "darwin,amd64"
    then (match_string mac32 f.os, 10)
    else if h == codes "darwin,arm64"
    then (if match_string mac64 f.os then (true, 20) else (match_string mac32 f.os, 10))
    else (false, 0)

unfoldable pub is_compatible_with : Flavor → Text → Text → Bool × ℕ
is_compatible_with f os_name os_arch =
    if is_exact_match_with f os_name os_arch
    then (true, 1000)
    else compatible_by_emulation f (host os_name os_arch)

-- The loop of `GetFlavourCompatibleWith`. The priority starts at -1 in the source; here the priority
-- is the number plus one, so that it starts at 0.
unfoldable pub choose : Text → Text → Option Flavor → ℕ → List Flavor → Option Flavor
unfolding is_compatible_with
choose os_name os_arch best priority [] = best
choose os_name os_arch best priority (f ∷ fs) =
    let (comp, p) = is_compatible_with f os_name os_arch in
    let better = comp && ltb priority (p + 1) in
    choose os_name os_arch (if better then some f else best) (if better then p + 1 else priority) fs

unfoldable pub get_flavour_compatible_with : List Flavor → Text → Text → Option ℕ
unfolding choose
get_flavour_compatible_with flavors os_name os_arch = elim (choose os_name os_arch none 0 flavors) [
  | none ↦ none
  | some f ↦ some f.resource
]
