-- ===== src/Shared/Scripts.antt =====
-- The scripts of shared/scripts.go, which the jobs run and which a config map holds.
use db_operator.Base.{Text, codes, List, [], ◌∷◌, ◌++◌}

-- a text of lines that all end
abbrev lines : List Text → Text
lines [] = []
lines (line ∷ rest) = line ++ b'\n' ∷ lines rest

unfoldable pub upload_az_blobs_script : Text
upload_az_blobs_script = lines (
    codes "#!/bin/bash -e"
    ∷ codes "# Only supports up/downloading with service principal"
    ∷ codes "# But should be fairly simple to expand with other methods."
    ∷ codes "LATEST_BACKUP=$(find /backups/ -type f | sort | tail -n 1)"
    ∷ codes "LATEST_BACKUP_BASE_NAME=$(basename \"$LATEST_BACKUP\")"
    ∷ codes
        "az login --service-principal -u $AZ_BLOBS_USER -p $AZ_BLOBS_USER_PW --tenant $AZ_BLOBS_TENANT_ID"
    ∷ codes "az storage blob upload \\"
    ∷ codes "  --account-name $AZ_BLOBS_STORAGE_ACCOUNT \\"
    ∷ codes "  --container-name $AZ_BLOBS_CONTAINER \\"
    ∷ codes "  --name $LATEST_BACKUP_BASE_NAME \\"
    ∷ codes "  --file $LATEST_BACKUP"
    ∷ codes "echo \"upload done\""
    ∷ [])

unfoldable pub backup_postgres_script : Text
backup_postgres_script = lines (
    codes "#!/bin/bash -e"
    ∷ codes "pg_dump \\"
    ∷ codes "\t--format=custom \\"
    ∷ codes "\t--compress=9 \\"
    ∷ codes "\t--file=/backups/${1:-\"$DATABASE\"_\"`date +%Y%m%d%H%M`.dump\"} \\"
    ∷ codes "\t--no-owner \\"
    ∷ codes "\t--no-acl \\"
    ∷ codes "\t--host=$PGHOST \\"
    ∷ codes "\t--user=$PGUSER \\"
    ∷ codes "\t--port=$PGPORT \\"
    ∷ codes "\t$DATABASE"
    ∷ codes "echo \"pg_dump done\""
    ∷ [])

unfoldable pub restore_postgres_script : Text
restore_postgres_script = lines (
    codes "#!/bin/bash -e"
    ∷ codes "LATEST_BACKUP=$(find /backups/ -type f | sort | tail -n 1)"
    ∷ codes "pg_restore \\"
    ∷ codes "\t--host=$PGHOST \\"
    ∷ codes "\t--user=$PGUSER \\"
    ∷ codes "\t--port=$PGPORT \\"
    ∷ codes "\t--dbname=$DATABASE \\"
    ∷ codes "\t--single-transaction \\"
    ∷ codes "\t--no-owner \\"
    ∷ codes "\t--clean \\"
    ∷ codes "\t--no-acl \\"
    ∷ codes "\t-n public \\"
    ∷ codes "\t$LATEST_BACKUP"
    ∷ codes "echo \"pg_restore done\""
    ∷ [])

unfoldable pub backup_mysql_script : Text
backup_mysql_script = lines (
    codes "#!/bin/bash -e"
    ∷ codes "mysqldump \\"
    ∷ codes "\t-u $MYSQL_USER \\"
    ∷ codes "\t-h $MYSQL_HOST \\"
    ∷ codes "\t-d $MYSQL_DATABASE \\"
    ∷ codes "\t> /backups/${1:-\"$MYSQL_DATABASE\"_\"`date +%Y%m%d%H%M`.sql\"}"
    ∷ codes "echo \"mysqldump done\""
    ∷ [])

unfoldable pub restore_mysql_script : Text
restore_mysql_script = lines (
    codes "#!/bin/bash -e"
    ∷ codes "LATEST_BACKUP=$(find /backups/ -type f | sort | tail -n 1)"
    ∷ codes "mysql -u $MYSQL_USER -h $MYSQL_HOST $MYSQL_DATABASE < $LATEST_BACKUP"
    ∷ codes "echo \"mysql restore done\""
    ∷ [])

unfoldable pub download_az_blobs_script : Text
download_az_blobs_script = lines (
    codes "#!/bin/bash -e"
    ∷ codes "# Only supports up/downloading with service principal"
    ∷ codes "# But should be fairly simple to expand with other methods."
    ∷ codes
        "az login --service-principal -u $AZ_BLOBS_USER -p $AZ_BLOBS_USER_PW --tenant $AZ_BLOBS_TENANT_ID"
    ∷ codes "az storage blob download \\"
    ∷ codes "  --account-name $AZ_BLOBS_STORAGE_ACCOUNT \\"
    ∷ codes "  --container-name $AZ_BLOBS_CONTAINER \\"
    ∷ codes "  --name $AZ_BLOBS_FILE_NAME \\"
    ∷ codes "  --file /backups/$AZ_BLOBS_FILE_NAME"
    ∷ codes "echo \"download done\""
    ∷ [])

unfoldable pub upload_s3_script : Text
upload_s3_script = lines (
    codes "#!/bin/bash -e"
    ∷ codes "shopt -s expand_aliases"
    ∷ codes "if [[ ! -z \"${S3_ENDPOINT}\" ]]; then alias aws='aws --endpoint-url $S3_ENDPOINT'; fi"
    ∷ codes ""
    ∷ codes "LATEST_BACKUP=$(find /backups/ -type f | sort | tail -n 1)"
    ∷ codes "LATEST_BACKUP_BASE_NAME=$(basename \"$LATEST_BACKUP\")"
    ∷ codes "# aws s3 cp test.txt s3://mybucket/(prefix/)test2.txt"
    ∷ codes "aws s3 cp $LATEST_BACKUP s3://$S3_BUCKET_NAME/$S3_PREFIX$LATEST_BACKUP_BASE_NAME"
    ∷ codes "echo \"upload done\""
    ∷ [])

unfoldable pub download_s3_script : Text
download_s3_script = lines (
    codes "#!/bin/bash -e"
    ∷ codes "shopt -s expand_aliases"
    ∷ codes "if [[ ! -z \"${S3_ENDPOINT}\" ]]; then alias aws='aws --endpoint-url $S3_ENDPOINT'; fi"
    ∷ codes ""
    ∷ codes "if [[ -z \"$S3_FILE_NAME\" ]]; then"
    ∷ codes "\t# if not set find the latest file"
    ∷ codes
        "\tS3_FILE_NAME=$(aws s3 ls $S3_BUCKET_NAME/$S3_PREFIX | sort | tail -n 1 | awk '{print $4}')"
    ∷ codes "fi"
    ∷ codes ""
    ∷ codes "aws s3 cp s3://$S3_BUCKET_NAME/$S3_PREFIX$S3_FILE_NAME /backups/$S3_FILE_NAME"
    ∷ codes "echo \"download done\""
    ∷ [])

abbrev pub backup_postgres : Text
backup_postgres = codes "backup_postgres.sh"

abbrev pub restore_postgres : Text
restore_postgres = codes "restore_postgres.sh"

abbrev pub backup_mysql : Text
backup_mysql = codes "backup_mysql.sh"

abbrev pub restore_mysql : Text
restore_mysql = codes "restore_mysql.sh"

abbrev pub upload_az_blobs : Text
upload_az_blobs = codes "upload_az_blobs.sh"

abbrev pub download_az_blobs : Text
download_az_blobs = codes "download_az_blobs.sh"

abbrev pub upload_s3 : Text
upload_s3 = codes "upload_s3.sh"

abbrev pub download_s3 : Text
download_s3 = codes "download_s3.sh"

abbrev pub scripts_map : List (Text × Text)
scripts_map =
    (backup_postgres, backup_postgres_script)
    ∷ (restore_postgres, restore_postgres_script)
    ∷ (backup_mysql, backup_mysql_script)
    ∷ (restore_mysql, restore_mysql_script)
    ∷ (upload_az_blobs, upload_az_blobs_script)
    ∷ (download_az_blobs, download_az_blobs_script)
    ∷ (upload_s3, upload_s3_script)
    ∷ (download_s3, download_s3_script)
    ∷ []
