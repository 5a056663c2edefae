-- ===== src/Week4.antt =====
-- task/week4/autocheck/public_check.py: the checks of a candidate's Compose file, database and report.
pub mod Receipt
pub mod Schema
pub mod Report
pub mod Compose
pub mod Columns
pub mod Metrics
mod Tests
