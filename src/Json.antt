-- ===== src/Json.antt =====
-- The values that `json.loads` gives (Python's json module), and dictionaries in insertion order.
-- A float is the decimal that its literal writes, `m / 10 ^ k`, or NaN or an infinity.
mod Defs
pub mod Utf8
pub mod Print
pub mod Spaced
pub mod Scan
pub mod Members
pub mod Parse
pub mod Dict
mod Tests
unfoldable pub use Defs.*
