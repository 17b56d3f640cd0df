-- ===== src/Controllers/Containers/Scripts.antt =====
-- Which scripts the containers run.
use db_operator.Base.{Text, text_eq, Option, some, [], ◌∷◌, ◌≡◌, refl}
use db_operator.Base.Maps.{lookup}
use db_operator.Shared.Scripts.{
  scripts_map, backup_postgres, restore_postgres, backup_mysql, restore_mysql, upload_s3,
  download_s3, backup_postgres_script, restore_postgres_script, backup_mysql_script,
  restore_mysql_script, upload_s3_script, download_s3_script,
}
use db_operator.Controllers.Containers.{
  Container, DbActions, postgres_actions, my_sql_actions, S3Storage, postgres_container,
  mysql_container, s3_container, build_backup_container, build_restore_container,
  build_upload_container, build_download_container, script_path, volume_mounts,
}

-- the command is a script of the map, under the folder that the container mounts
abbrev pub Runs : Container → Text → Text → Type 0
Runs c script text =
    (c.command ≡ script_path script ∷ [])
    × (lookup script scripts_map ≡ some text)
    × (c.volume_mounts ≡ volume_mounts)

-- by kind of server
abbrev pub backup_script_of : DbActions → Text × Text
backup_script_of (postgres_actions _ _) = (backup_postgres, backup_postgres_script)
backup_script_of (my_sql_actions _ _) = (backup_mysql, backup_mysql_script)

abbrev pub restore_script_of : DbActions → Text × Text
restore_script_of (postgres_actions _ _) = (restore_postgres, restore_postgres_script)
restore_script_of (my_sql_actions _ _) = (restore_mysql, restore_mysql_script)

pub build_backup_container-Runs :
    (a : DbActions) → Runs (build_backup_container a) (backup_script_of a).0 (backup_script_of a).1
unfolding build_backup_container postgres_container mysql_container lookup text_eq
build_backup_container-Runs (postgres_actions server db) = (refl, refl, refl)
build_backup_container-Runs (my_sql_actions server db) = (refl, refl, refl)

pub build_restore_container-Runs :
    (a : DbActions)
    → Runs (build_restore_container a) (restore_script_of a).0 (restore_script_of a).1
unfolding build_restore_container postgres_container mysql_container lookup text_eq
build_restore_container-Runs (postgres_actions server db) = (refl, refl, refl)
build_restore_container-Runs (my_sql_actions server db) = (refl, refl, refl)

pub build_upload_container-Runs :
    (s : S3Storage) (name : Option Text)
    → Runs (build_upload_container s name) upload_s3 upload_s3_script
unfolding build_upload_container s3_container lookup text_eq
build_upload_container-Runs s name = (refl, refl, refl)

pub build_download_container-Runs :
    (s : S3Storage) (name : Option Text)
    → Runs (build_download_container s name) download_s3 download_s3_script
unfolding build_download_container s3_container lookup text_eq
build_download_container-Runs s name = (refl, refl, refl)
