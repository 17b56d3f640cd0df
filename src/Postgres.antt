-- ===== src/Postgres.antt =====
-- dbservers/postgres, and the queries of dbservers/query_utils.
pub mod Select
pub mod Version
pub mod Privileges
pub mod Reconciler
pub mod Statements
pub mod Acl
pub mod Found
pub mod Constructors
pub mod Users
pub mod Backups
pub mod Connection
pub mod Connector
pub mod Schedules
pub mod Tests
