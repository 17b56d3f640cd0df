-- ===== src/Controllers/Jobs/Scheduled.antt =====
-- The status that the controllers of cron jobs keep: `BackupCronJobStatus` and
-- `DbCopyCronJobStatus`.
pub mod Backup
pub mod Restore
pub mod Copy
pub mod Stale
use db_operator.Base.{Text, text_eq, Bool, true, false, not, ◌&&◌, if◌then◌else◌}

pub record CronJobStatus : Type 0 where
  pub exists : Bool
  pub cronjob_name : Text

abbrev bool_eq : Bool → Bool → Bool
bool_eq a b = if a then b else not b

-- `reflect.DeepEqual`
abbrev pub cron_status_eq : CronJobStatus → CronJobStatus → Bool
cron_status_eq a b = bool_eq a.exists b.exists && text_eq a.cronjob_name b.cronjob_name
