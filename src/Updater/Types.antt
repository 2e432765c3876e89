-- ===== src/Updater/Types.antt =====
-- The state of updater/types.py. Time stamps are in microseconds, UTC; identifiers are numbers.
use finance_reconciliation.Prelude.{
  ℕ, Bool, true, false, not, ◌&&◌, ◌||◌, Option, none, some, List, [], if◌then◌else◌,
}
use finance_reconciliation.Prelude.Text.{Text, codes, is_empty, text_eq}

pub data Stage : Type 0 where
  checking backing_up pulling stopping_web migrating starting_web checking_health : Stage
  stabilizing persisting_version cleaning rolling_back : Stage
  succeeded failed manual_intervention : Stage

pub data CleanupStatus : Type 0 where
  not_run complete pending : CleanupStatus

pub data CleanupStep : Type 0 where
  version_tag rollback_alias image_id : CleanupStep

pub data CleanupStepStatus : Type 0 where
  not_started started completed : CleanupStepStatus

pub record CleanupJournal : Type 0 where
  pub on_version_tag : CleanupStepStatus
  pub on_rollback_alias : CleanupStepStatus
  pub on_image_id : CleanupStepStatus

abbrev pub is_not_started : CleanupStepStatus → Bool
is_not_started not_started = true
is_not_started started = false
is_not_started completed = false

abbrev pub is_started : CleanupStepStatus → Bool
is_started not_started = false
is_started started = true
is_started completed = false

abbrev pub is_completed : CleanupStepStatus → Bool
is_completed not_started = false
is_completed started = false
is_completed completed = true

-- What `CleanupJournal.__post_init__` accepts: a step starts after the one before is completed.
abbrev pub is_ordered : CleanupJournal → Bool
is_ordered j =
    (is_not_started j.on_rollback_alias || is_completed j.on_version_tag)
    && (is_not_started j.on_image_id || is_completed j.on_rollback_alias)

-- `CleanupJournal.complete`
abbrev pub is_complete : CleanupJournal → Bool
is_complete j = is_completed j.on_image_id

-- `getattr(journal, step.value)`
abbrev pub status_of : CleanupStep → CleanupJournal → CleanupStepStatus
status_of version_tag j = j.on_version_tag
status_of rollback_alias j = j.on_rollback_alias
status_of image_id j = j.on_image_id

-- The fields of `replace(journal, **{step.value: status})`, before its `__post_init__`.
abbrev pub with_status : CleanupStep → CleanupStepStatus → CleanupJournal → CleanupJournal
with_status version_tag s j = record j { on_version_tag = s }
with_status rollback_alias s j = record j { on_rollback_alias = s }
with_status image_id s j = record j { on_image_id = s }

abbrev pub fresh_journal : CleanupJournal
fresh_journal = record {
  on_version_tag = not_started;
  on_rollback_alias = not_started;
  on_image_id = not_started;
}

pub record ImageIdentity : Type 0 where
  pub repository : Text
  pub version : Text
  pub digest : Text
  pub image_id : Text
  pub tags : List Text
  pub rollback_alias : Text
  pub published_at : Option ℕ

pub record CheckResult : Type 0 where
  pub current : ImageIdentity
  pub target : ImageIdentity
  pub available : Bool
  pub checked_at : ℕ

pub record UpdateTask : Type 0 where
  pub id : ℕ
  pub original : ImageIdentity
  pub target : ImageIdentity
  pub stage : Stage
  pub created_at : ℕ
  pub started_at : Option ℕ
  pub finished_at : Option ℕ
  pub database_backup : Text
  pub uploads_backup : Text
  pub rolled_back : Bool
  pub cleanup : CleanupStatus
  pub cleanup_journal : Option CleanupJournal
  pub error_code : Text
  pub error_message : Text

pub record PersistentState : Type 0 where
  pub last_check : Option CheckResult
  pub task : Option UpdateTask

pub record TaskView : Type 0 where
  pub id : ℕ
  pub from_version : Text
  pub to_version : Text
  pub stage : Stage
  pub created_at : ℕ
  pub started_at : Option ℕ
  pub finished_at : Option ℕ
  pub backup_complete : Bool
  pub rolled_back : Bool
  pub cleanup : CleanupStatus
  pub error_code : Text
  pub error_message : Text

pub record StatusView : Type 0 where
  pub current_version : Text
  pub current_published_at : Option ℕ
  pub latest_version : Option Text
  pub latest_published_at : Option ℕ
  pub update_available : Bool
  pub checked_at : Option ℕ
  pub task : Option TaskView

-- `PUBLIC_ERROR_MESSAGES.get`
unfoldable pub public_message : Text → Option Text
public_message code =
    if text_eq code []
    then some []
    else if text_eq code (codes "backup_failed")
    then some (codes "备份失败，请联系管理员。")
    else if text_eq code (codes "pull_failed")
    then some (codes "下载升级版本失败，请联系管理员。")
    else if text_eq code (codes "migration_failed")
    then some (codes "升级失败，请联系管理员。")
    else if text_eq code (codes "health_check_failed")
    then some (codes "升级后检查失败，请联系管理员。")
    else if text_eq code (codes "rollback_failed")
    then some (codes "升级失败，需要人工处理。")
    else if text_eq code (codes "update_failed")
    then some (codes "升级失败，请联系管理员。")
    else none

-- `_public_error`
abbrev pub public_error : Text → Text × Text
public_error code = elim (public_message code) [
  | some message ↦ (code, message)
  | none ↦ (codes "update_failed", codes "升级失败，请联系管理员。")
]

-- `UpdateTask.public_view`
unfoldable pub public_view : UpdateTask → TaskView
public_view t = record {
  id = t.id;
  from_version = t.original.version;
  to_version = t.target.version;
  stage = t.stage;
  created_at = t.created_at;
  started_at = t.started_at;
  finished_at = t.finished_at;
  backup_complete = not (is_empty t.database_backup) && not (is_empty t.uploads_backup);
  rolled_back = t.rolled_back;
  cleanup = t.cleanup;
  error_code = (public_error t.error_code).0;
  error_message = (public_error t.error_code).1;
}
