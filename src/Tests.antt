-- ===== src/Tests.antt =====
-- The theorems at concrete inputs.
pub mod Fixtures
pub mod Platform
pub mod Client
pub mod Handlers
pub mod Templates
pub mod Janitor
pub mod Request
pub mod Router
pub mod Management
pub mod Verification
