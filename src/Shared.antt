-- ===== src/Shared.antt =====
-- shared/shared.go.
pub mod Strings
pub mod Scripts
pub mod Backoff
pub mod Errors
pub mod Urls
pub mod Connections
pub mod Tests
