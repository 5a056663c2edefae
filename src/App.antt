-- ===== src/App.antt =====
-- The Python services of Python/app: configuration, the HTTP client, receipts, and three workers.
pub mod Config
pub mod Http
pub mod Receipt
pub mod Adapter
pub mod Worker
pub mod Dispatcher
pub mod Reconciler
pub mod Tests
