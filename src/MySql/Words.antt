-- ===== src/MySql/Words.antt =====
-- The lists of privileges of dbservers/mysql/privileges.go.
use db_operator.Base.{Text, codes, List, [], ◌∷◌}

abbrev pub valid_privs : List Text
valid_privs =
    codes "CREATE"
    ∷ codes "DROP"
    ∷ codes "GRANT"
    ∷ codes "GRANT OPTION"
    ∷ codes "LOCK TABLES"
    ∷ codes "REFERENCES"
    ∷ codes "EVENT"
    ∷ codes "ALTER"
    ∷ codes "DELETE"
    ∷ codes "INDEX"
    ∷ codes "INSERT"
    ∷ codes "SELECT"
    ∷ codes "UPDATE"
    ∷ codes "CREATE TEMPORARY TABLES"
    ∷ codes "TRIGGER"
    ∷ codes "CREATE VIEW"
    ∷ codes "SHOW VIEW"
    ∷ codes "ALTER ROUTINE"
    ∷ codes "CREATE ROUTINE"
    ∷ codes "EXECUTE"
    ∷ codes "FILE"
    ∷ codes "CREATE TABLESPACE"
    ∷ codes "CREATE USER"
    ∷ codes "PROCESS"
    ∷ codes "PROXY"
    ∷ codes "RELOAD"
    ∷ codes "REPLICATION CLIENT"
    ∷ codes "REPLICATION SLAVE"
    ∷ codes "SHOW DATABASES"
    ∷ codes "SHUTDOWN"
    ∷ codes "SUPER"
    ∷ codes "ALL"
    ∷ codes "ALL PRIVILEGES"
    ∷ codes "USAGE"
    ∷ codes "REQUIRESSL"
    ∷ codes "CREATE ROLE"
    ∷ codes "DROP ROLE"
    ∷ codes "APPLICATION_PASSWORD_ADMIN"
    ∷ codes "AUDIT_ADMIN"
    ∷ codes "BACKUP_ADMIN"
    ∷ codes "BINLOG_ADMIN"
    ∷ codes "BINLOG_ENCRYPTION_ADMIN"
    ∷ codes "CLONE_ADMIN"
    ∷ codes "CONNECTION_ADMIN"
    ∷ codes "ENCRYPTION_KEY_ADMIN"
    ∷ codes "FIREWALL_ADMIN"
    ∷ codes "FIREWALL_USER"
    ∷ codes "GROUP_REPLICATION_ADMIN"
    ∷ codes "INNODB_REDO_LOG_ARCHIVE"
    ∷ codes "NDB_STORED_USER"
    ∷ codes "PERSIST_RO_VARIABLES_ADMIN"
    ∷ codes "REPLICATION_APPLIER"
    ∷ codes "REPLICATION_SLAVE_ADMIN"
    ∷ codes "RESOURCE_GROUP_ADMIN"
    ∷ codes "RESOURCE_GROUP_USER"
    ∷ codes "ROLE_ADMIN"
    ∷ codes "SESSION_VARIABLES_ADMIN"
    ∷ codes "SET_USER_ID"
    ∷ codes "SYSTEM_USER"
    ∷ codes "SYSTEM_VARIABLES_ADMIN"
    ∷ codes "SYSTEM_USER"
    ∷ codes "TABLE_ENCRYPTION_ADMIN"
    ∷ codes "VERSION_TOKEN_ADMIN"
    ∷ codes "XA_RECOVER_ADMIN"
    ∷ codes "LOAD FROM S3"
    ∷ codes "SELECT INTO S3"
    ∷ codes "INVOKE LAMBDA"
    ∷ codes "ALTER ROUTINE"
    ∷ codes "BINLOG ADMIN"
    ∷ codes "BINLOG MONITOR"
    ∷ codes "BINLOG REPLAY"
    ∷ codes "CONNECTION ADMIN"
    ∷ codes "READ_ONLY ADMIN"
    ∷ codes "REPLICATION MASTER ADMIN"
    ∷ codes "REPLICATION SLAVE ADMIN"
    ∷ codes "SET USER"
    ∷ codes "SHOW_ROUTINE"
    ∷ codes "SLAVE MONITOR"
    ∷ codes "REPLICA MONITOR"
    ∷ []

abbrev pub all_privs : List Text
all_privs =
    codes "SELECT"
    ∷ codes "INSERT"
    ∷ codes "UPDATE"
    ∷ codes "DELETE"
    ∷ codes "CREATE"
    ∷ codes "DROP"
    ∷ codes "RELOAD"
    ∷ codes "SHUTDOWN"
    ∷ codes "PROCESS"
    ∷ codes "FILE"
    ∷ codes "REFERENCES"
    ∷ codes "INDEX"
    ∷ codes "ALTER"
    ∷ codes "SHOW DATABASES"
    ∷ codes "SUPER"
    ∷ codes "CREATE TEMPORARY TABLES"
    ∷ codes "LOCK TABLES"
    ∷ codes "EXECUTE"
    ∷ codes "REPLICATION SLAVE"
    ∷ codes "REPLICATION CLIENT"
    ∷ codes "CREATE VIEW"
    ∷ codes "SHOW VIEW"
    ∷ codes "CREATE ROUTINE"
    ∷ codes "ALTER ROUTINE"
    ∷ codes "CREATE USER"
    ∷ codes "EVENT"
    ∷ codes "TRIGGER"
    ∷ codes "CREATE TABLESPACE"
    ∷ codes "CREATE ROLE"
    ∷ codes "DROP ROLE"
    ∷ codes "APPLICATION_PASSWORD_ADMIN"
    ∷ codes "AUDIT_ABORT_EXEMPT"
    ∷ codes "AUDIT_ADMIN"
    ∷ codes "AUTHENTICATION_POLICY_ADMIN"
    ∷ codes "BACKUP_ADMIN"
    ∷ codes "BINLOG_ADMIN"
    ∷ codes "BINLOG_ENCRYPTION_ADMIN"
    ∷ codes "CLONE_ADMIN"
    ∷ codes "CONNECTION_ADMIN"
    ∷ codes "ENCRYPTION_KEY_ADMIN"
    ∷ codes "FIREWALL_EXEMPT"
    ∷ codes "FLUSH_OPTIMIZER_COSTS"
    ∷ codes "FLUSH_STATUS"
    ∷ codes "FLUSH_TABLES"
    ∷ codes "FLUSH_USER_RESOURCES"
    ∷ codes "GROUP_REPLICATION_ADMIN"
    ∷ codes "GROUP_REPLICATION_STREAM"
    ∷ codes "INNODB_REDO_LOG_ARCHIVE"
    ∷ codes "INNODB_REDO_LOG_ENABLE"
    ∷ codes "PASSWORDLESS_USER_ADMIN"
    ∷ codes "PERSIST_RO_VARIABLES_ADMIN"
    ∷ codes "REPLICATION_APPLIER"
    ∷ codes "REPLICATION_SLAVE_ADMIN"
    ∷ codes "RESOURCE_GROUP_ADMIN"
    ∷ codes "RESOURCE_GROUP_USER"
    ∷ codes "ROLE_ADMIN"
    ∷ codes "SENSITIVE_VARIABLES_OBSERVER"
    ∷ codes "SERVICE_CONNECTION_ADMIN"
    ∷ codes "SESSION_VARIABLES_ADMIN"
    ∷ codes "SHOW_ROUTINE"
    ∷ codes "SYSTEM_USER"
    ∷ codes "SYSTEM_VARIABLES_ADMIN"
    ∷ codes "TABLE_ENCRYPTION_ADMIN"
    ∷ codes "XA_RECOVER_ADMIN"
    ∷ []
