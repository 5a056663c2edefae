-- ===== src/Week2.antt =====
-- task/week2/autocheck/public_check.py: the verdicts on what a candidate's views show.
pub mod Attempts
pub mod Views
pub mod Fixture
pub mod Reports
pub mod Compose
mod Tests
