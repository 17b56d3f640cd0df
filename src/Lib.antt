-- ===== src/Lib.antt =====
-- A model of db-operator, the Kubernetes operator that keeps databases, users, privileges and
-- backups on PostgreSQL, CockroachDB and MySQL servers in the state that custom resources describe.
--
-- Interfaces holds what the program calls and does not implement, each as a record of operations
-- and of the laws that their documentation states: the set functions of go-funk, the quoting of
-- lib/pq, a database behind database/sql, and finalizers, updates and the clock of Kubernetes. A
-- client takes such a record as an instance argument.
--
-- Base holds the shared vocabulary. A text is a list of code points. A function that can fail
-- returns `Result`, with a panic as an outcome of its own; one that also reads and writes the world
-- is an `Exec`, which keeps the world beside an error.
--
-- Shared is shared/shared.go: error kinds, string helpers and the waits before another run. Times
-- and waits are whole nanoseconds, where the source goes through floats. Shared.Connections is the
-- cache of connections of shared/connection_store.go.
--
-- Postgres is dbservers/postgres. Version parses the banner of a server and lists the valid
-- privileges; Privileges parses and normalises lists of privileges and flags; Statements builds
-- each GRANT and REVOKE; Found reads what a user holds, through Select (query_utils) and Acl
-- (access lists and the regular expression on them); Reconciler is `PrivsReconciler`; Constructors
-- is `GetPrivsReconciler` with the constructors of the four types of privilege; Users is
-- `UpdateUserPrivs` and `RevokeAllDbPrivs`; Connection is `PostgresConnection`; Connector is
-- `PostgresConnector` up to the opening of a connection; Backups and Schedules have its statements
-- for backups, with the URLs of Shared.Urls.
--
-- MySql is dbservers/mysql. Words has the lists of known privileges; Columns cuts lists of
-- privileges and normalises grants on columns; ShowGrants reads a line of SHOW GRANTS, with the
-- regular expression as a search for its literal parts; Server and Queries find out about the
-- server and TLS; Unpack builds the desired privileges by object; Statements builds and guards
-- GRANT and REVOKE; Users runs them, in the two loops of `UpdateUserPrivs`; Connection is
-- `MySqlConnection`, and Connector `MySqlConnector`.
--
-- Controllers.Reconcile is the loop of controllers/reconcilable.go, over a record of the operations
-- that every controller gives it. The controller's copy of a resource is part of the world, since
-- the operations and the loop share it by a pointer.
--
-- Controllers.DbServers chooses a server by its name, and DbServers.Status is the controller that
-- keeps its status; Controllers.Credentials reads secrets and Controllers.Connect puts them into
-- connections, whose lookups are a parameter; Controllers.User is `UserReco` of
-- controllers/user_controller.go, over the connection as a record of its methods. The controllers
-- meet the dialects through that record.
--
-- Controllers.Db and Controllers.Schema are `DbReco` and `SchemaReco` as instances of that loop,
-- over a world of the controller's fields and the rest; what they call does not panic
-- (Interfaces.Calls). Controllers.Crdb reads the rows of CockroachDB, Crdb.Run is the controller of
-- one backup, and Crdb.Schedule that of a schedule of backups; there a panic is an outcome.
--
-- Controllers.Containers has the containers of jobs, with the scripts of Shared.Scripts.
-- Controllers.Lazy is the helper of a backup or restore target, whose parts are one record that is
-- filled step by step. Controllers.Jobs has what the controllers of jobs share, with a module for
-- each of the three kinds, and Controllers.Jobs.Scheduled the three kinds of cron jobs.
--
-- All loops are structural recursion on lists. Only the digits of a number are written on fuel, of
-- one more than the number, and reading them back shows that it is enough. Logging is left out. A
-- Go map gives its entries in no fixed order; the model takes them in the order in which they were
-- written. A user name in a regular expression is taken to have no special byte.
--
-- Not modelled: the set-up of managers and watches, generated deep copies, and the entry point.
pub mod Base
pub mod Interfaces
pub mod Api
pub mod Shared
pub mod Postgres
pub mod MySql
pub mod Controllers
