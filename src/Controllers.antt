-- ===== src/Controllers.antt =====
-- controllers: the loop that every controller runs.
pub mod Reconcile
pub mod DbServers
pub mod Credentials
pub mod Connect
pub mod User
pub mod Db
pub mod Schema
pub mod Crdb
pub mod Containers
pub mod Lazy
pub mod Jobs
pub mod Tests
