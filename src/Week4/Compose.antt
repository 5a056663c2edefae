-- ===== src/Week4/Compose.antt =====
-- The findings about a Compose file.
pub mod Tables
pub mod Paths
pub mod Ports
pub mod Unsafe
pub mod Services
pub mod Runtime
pub mod Environment
