-- ===== src/Builtins.antt =====
-- What the programs use of Python's built-in text functions: `int(text)`, `strip` and `split`.
-- `int` reads ASCII digits here; Python takes other decimal digits as well.
mod Defs
pub mod Find
pub mod Casefold
pub mod Round
pub mod Time
unfoldable pub use Defs.*
