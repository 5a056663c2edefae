-- ===== src/Week2/Fixture.antt =====
-- The keys of a published fixture.
pub mod Tables
pub mod Digest
pub mod Load
pub mod Published
pub mod Order
mod Tests
