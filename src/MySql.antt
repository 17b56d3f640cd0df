-- ===== src/MySql.antt =====
-- dbservers/mysql.
pub mod Words
pub mod Columns
pub mod ShowGrants
pub mod Server
pub mod Queries
pub mod Unpack
pub mod Statements
pub mod Users
pub mod Connection
pub mod Connector
pub mod Tests
