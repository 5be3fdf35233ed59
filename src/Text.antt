-- ===== src/Text.antt =====
-- What the domain uses of Rust's `String` and `&str`: a text is the list of its code points, and its
-- bytes are computed from them. Equality, UTF-8, `trim`, `starts_with`, `split`, `split_once`.
mod Base
mod Trim
mod Split
pub mod Join
pub mod Decimal
unfoldable pub use Base.*
unfoldable pub use Trim.*
unfoldable pub use Split.*
