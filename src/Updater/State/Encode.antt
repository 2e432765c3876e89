-- ===== src/Updater/State/Encode.antt =====
-- The methods `to_dict` of updater/types.py.
use finance_reconciliation.Prelude.{Option, none, some}
use finance_reconciliation.Prelude.Text.{Text, codes}
use finance_reconciliation.Updater.Types.{
  Stage, checking, backing_up, pulling, stopping_web, migrating, starting_web, checking_health,
  stabilizing, persisting_version, cleaning, rolling_back, succeeded, failed, manual_intervention,
  CleanupStatus, not_run, complete, pending, CleanupStepStatus, not_started, started, completed,
  CleanupJournal, ImageIdentity, CheckResult, UpdateTask, PersistentState,
}
use finance_reconciliation.Updater.State.Json.{
  Json, json_null, json_bool, json_text, json_list, json_object, end_object, field, Codec,
  json_texts, datetime_to_dict,
}

-- The values of the enumerations.
abbrev pub stage_value : Stage → Text
stage_value checking = codes "checking"
stage_value backing_up = codes "backing_up"
stage_value pulling = codes "pulling"
stage_value stopping_web = codes "stopping_web"
stage_value migrating = codes "migrating"
stage_value starting_web = codes "starting_web"
stage_value checking_health = codes "checking_health"
stage_value stabilizing = codes "stabilizing"
stage_value persisting_version = codes "persisting_version"
stage_value cleaning = codes "cleaning"
stage_value rolling_back = codes "rolling_back"
stage_value succeeded = codes "succeeded"
stage_value failed = codes "failed"
stage_value manual_intervention = codes "manual_intervention"

abbrev pub cleanup_value : CleanupStatus → Text
cleanup_value not_run = codes "not_run"
cleanup_value complete = codes "complete"
cleanup_value pending = codes "pending"

abbrev pub step_value : CleanupStepStatus → Text
step_value not_started = codes "not_started"
step_value started = codes "started"
step_value completed = codes "completed"

-- `CleanupJournal.to_dict`
abbrev pub journal_to_dict : CleanupJournal → Json
journal_to_dict j = json_object (
    field (codes "version_tag") (json_text (step_value j.on_version_tag)) (
      field (codes "rollback_alias") (json_text (step_value j.on_rollback_alias))
        (field (codes "image_id") (json_text (step_value j.on_image_id)) end_object)))

abbrev pub optional : {A : Type 0} → (A → Json) → Option A → Json
optional write none = json_null
optional write (some a) = write a

module _ (codec : Codec) where
  -- `ImageIdentity.to_dict`
  abbrev pub identity_to_dict : ImageIdentity → Json
  identity_to_dict i = json_object (
      field (codes "repository") (json_text i.repository) (
        field (codes "version") (json_text i.version) (
          field (codes "digest") (json_text i.digest) (
            field (codes "image_id") (json_text i.image_id) (
              field (codes "tags") (json_list (json_texts i.tags)) (
                field (codes "rollback_alias") (json_text i.rollback_alias) (
                  field (codes "published_at") (datetime_to_dict codec i.published_at)
                    end_object)))))))

  -- `CheckResult.to_dict`
  abbrev pub check_to_dict : CheckResult → Json
  check_to_dict c = json_object (
      field (codes "current") (identity_to_dict c.current) (
        field (codes "target") (identity_to_dict c.target) (
          field (codes "available") (json_bool c.available)
            (field (codes "checked_at") (datetime_to_dict codec (some c.checked_at)) end_object))))

  -- `UpdateTask.to_dict`
  abbrev pub task_to_dict : UpdateTask → Json
  task_to_dict t = json_object (
      field (codes "id") (json_text (codec.str_uuid t.id)) (
        field (codes "original") (identity_to_dict t.original) (
          field (codes "target") (identity_to_dict t.target) (
            field (codes "stage") (json_text (stage_value t.stage)) (
              field (codes "created_at") (datetime_to_dict codec (some t.created_at)) (
                field (codes "started_at") (datetime_to_dict codec t.started_at) (
                  field (codes "finished_at") (datetime_to_dict codec t.finished_at) (
                    field (codes "database_backup") (json_text t.database_backup) (
                      field (codes "uploads_backup") (json_text t.uploads_backup) (
                        field (codes "rolled_back") (json_bool t.rolled_back) (
                          field (codes "cleanup") (json_text (cleanup_value t.cleanup)) (
                            field (codes "cleanup_journal")
                              (optional journal_to_dict t.cleanup_journal)
                              (field (codes "error_code") (json_text t.error_code) (
                                field (codes "error_message") (json_text t.error_message)
                                  end_object))))))))))))))

  -- `PersistentState.to_dict`
  unfoldable pub state_to_dict : PersistentState → Json
  state_to_dict s = json_object (
      field (codes "last_check") (optional check_to_dict s.last_check)
        (field (codes "task") (optional task_to_dict s.task) end_object))
