-- ===== src/App/Tests.antt =====
-- One callback, one delivery and their services, and the theorems on the services of Python/app at them.
pub mod Callback
mod Handler
pub mod Delivery
mod Settings
