-- ===== src/Strings.antt =====
-- What the program uses of Go's `strings`, `strconv` and `unicode`. A text is the list of its code
-- points; where the source walks bytes, the module that models it says so.
pub mod Search
pub mod Split
pub mod Atoi
pub mod Suffix
pub mod Cuts
unfoldable pub use Search.*
unfoldable pub use Split.*
unfoldable pub use Atoi.*
pub use Suffix.*
unfoldable pub use Cuts.*
