-- ===== src/Base/Bits.antt =====
-- The bits of a number, and what each word operation does to them.
pub mod Step
pub mod Laws
pub mod Words
pub mod Digits
pub mod Units
pub mod Fields
unfoldable pub use Step.*
pub use Laws.*
pub use Digits.*
pub use Words.*
pub use Units.*
