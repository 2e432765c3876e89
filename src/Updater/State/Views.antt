-- ===== src/Updater/State/Views.antt =====
-- `TaskView.to_dict` and `StatusView.to_dict` of updater/types.py: what the updater answers.
use finance_reconciliation.Prelude.{some}
use finance_reconciliation.Prelude.Text.{codes}
use finance_reconciliation.Updater.Types.{TaskView, StatusView}
use finance_reconciliation.Updater.State.Json.{
  Json, json_bool, json_text, json_object, end_object, field, Codec, datetime_to_dict,
}
use finance_reconciliation.Updater.State.Encode.{stage_value, cleanup_value, optional}

module _ (codec : Codec) where
  -- `TaskView.to_dict`
  abbrev pub task_view_to_dict : TaskView → Json
  task_view_to_dict v = json_object (
      field (codes "id") (json_text (codec.str_uuid v.id)) (
        field (codes "from_version") (json_text v.from_version) (
          field (codes "to_version") (json_text v.to_version) (
            field (codes "stage") (json_text (stage_value v.stage)) (
              field (codes "created_at") (datetime_to_dict codec (some v.created_at)) (
                field (codes "started_at") (datetime_to_dict codec v.started_at) (
                  field (codes "finished_at") (datetime_to_dict codec v.finished_at) (
                    field (codes "backup_complete") (json_bool v.backup_complete) (
                      field (codes "rolled_back") (json_bool v.rolled_back) (
                        field (codes "cleanup") (json_text (cleanup_value v.cleanup)) (
                          field (codes "error_code") (json_text v.error_code) (
                            field (codes "error_message") (json_text v.error_message)
                              end_object))))))))))))

  -- `StatusView.to_dict`
  unfoldable pub status_view_to_dict : StatusView → Json
  status_view_to_dict v = json_object (
      field (codes "current_version") (json_text v.current_version) (
        field (codes "current_published_at") (datetime_to_dict codec v.current_published_at) (
          field (codes "latest_version") (optional json_text v.latest_version) (
            field (codes "latest_published_at") (datetime_to_dict codec v.latest_published_at) (
              field (codes "update_available") (json_bool v.update_available) (
                field (codes "checked_at") (datetime_to_dict codec v.checked_at)
                  (field (codes "task") (optional task_view_to_dict v.task) end_object)))))))
