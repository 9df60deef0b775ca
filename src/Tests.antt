-- ===== src/Tests.antt =====
-- Concrete instances, and the theorems at concrete inputs.
pub mod Memory
pub mod World
pub mod Examples
pub mod Processing
pub mod Buckets
pub mod Texts
pub mod Reading
pub mod Services
pub mod Screens
