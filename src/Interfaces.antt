-- ===== src/Interfaces.antt =====
-- What the program calls and does not implement: the set functions of go-funk, the quoting of lib/pq
-- and a database behind `database/sql`.
pub mod Calls
pub mod Funk
pub mod Pq
pub mod Sql
pub mod Kubernetes
pub mod Files
pub mod Versions
