-- ===== src/Updater/State/Decode.antt =====
-- The methods `from_dict` of updater/types.py, with the tests of the classes on what they are made of.
use finance_reconciliation.Prelude.{◌||◌, Option, List, [], ◌∷◌, find, is_some}
use finance_reconciliation.Prelude.Text.{Text, codes, text_eq}
use finance_reconciliation.Prelude.Outcome.{ok, err, guard, or_raise, ◌>>=◌, ◌>>◌}
use finance_reconciliation.Updater.Types.{
  Stage, checking, backing_up, pulling, stopping_web, migrating, starting_web, checking_health,
  stabilizing, persisting_version, cleaning, rolling_back, succeeded, failed, manual_intervention,
  CleanupStatus, not_run, complete, pending, CleanupStepStatus, not_started, started, completed,
  CleanupJournal, is_ordered, ImageIdentity, CheckResult, UpdateTask, PersistentState,
}
use finance_reconciliation.Updater.Versions.{version_key}
use finance_reconciliation.Updater.State.Json.{
  Json, json_object, Fields, Codec, Read, invalid_state, invalid_version, get, has_exactly,
  require_exact_keys, as_text, as_bool, as_texts, datetime_from_dict, nullable,
}
use finance_reconciliation.Updater.State.Encode.{stage_value, cleanup_value, step_value}

-- `Stage(value)`, `CleanupStatus(value)` and `CleanupStepStatus(value)`.
unfoldable pub stage_of : Text → Option Stage
stage_of value =
    find (λ s. text_eq (stage_value s) value)
      (checking ∷ backing_up ∷ pulling ∷ stopping_web ∷ migrating ∷ starting_web ∷ checking_health
        ∷ stabilizing ∷ persisting_version ∷ cleaning ∷ rolling_back ∷ succeeded ∷ failed
        ∷ manual_intervention ∷ [])

unfoldable pub cleanup_of : Text → Option CleanupStatus
cleanup_of value = find (λ s. text_eq (cleanup_value s) value) (not_run ∷ complete ∷ pending ∷ [])

unfoldable pub step_of : Text → Option CleanupStepStatus
step_of value = find (λ s. text_eq (step_value s) value) (not_started ∷ started ∷ completed ∷ [])

abbrev pub identity_fields : List Text
identity_fields =
    codes "repository"
    ∷ codes "version"
    ∷ codes "digest"
    ∷ codes "image_id"
    ∷ codes "tags"
    ∷ codes "rollback_alias"
    ∷ codes "published_at"
    ∷ []

-- The fields of a task but the journal, which a state of an older release does not have.
abbrev pub legacy_fields : List Text
legacy_fields =
    codes "id"
    ∷ codes "original"
    ∷ codes "target"
    ∷ codes "stage"
    ∷ codes "created_at"
    ∷ codes "started_at"
    ∷ codes "finished_at"
    ∷ codes "database_backup"
    ∷ codes "uploads_backup"
    ∷ codes "rolled_back"
    ∷ codes "cleanup"
    ∷ codes "error_code"
    ∷ codes "error_message"
    ∷ []

-- `__post_init__` of a journal, and of an image.
abbrev pub make_journal : CleanupJournal → Read CleanupJournal
make_journal j = guard (is_ordered j) invalid_state >> ok j

unfoldable pub make_identity : ImageIdentity → Read ImageIdentity
unfolding version_key
make_identity i = guard (is_some (version_key i.version)) invalid_version >> ok i

unfoldable pub step_from : Json → Read CleanupStepStatus
unfolding step_of
step_from v = as_text v >>= λ t. or_raise (step_of t) invalid_state

-- `CleanupJournal.from_dict`
unfoldable pub journal_from_dict : Json → Read CleanupJournal
unfolding require_exact_keys step_from
journal_from_dict payload = do
  data_of ←
      require_exact_keys payload
        (codes "version_tag" ∷ codes "rollback_alias" ∷ codes "image_id" ∷ [])
  on_version_tag ← step_from (get (codes "version_tag") data_of)
  on_rollback_alias ← step_from (get (codes "rollback_alias") data_of)
  on_image_id ← step_from (get (codes "image_id") data_of)
  make_journal (record {
    on_version_tag = on_version_tag;
    on_rollback_alias = on_rollback_alias;
    on_image_id = on_image_id;
  })

-- The first test of `UpdateTask.from_dict`.
unfoldable pub require_task_keys : Json → Read Fields
unfolding require_exact_keys
require_task_keys (json_object fields) =
    guard
      (has_exactly (codes "cleanup_journal" ∷ legacy_fields) fields
        || has_exactly legacy_fields fields)
      invalid_state
    >> ok fields
require_task_keys payload = err invalid_state

module _ (codec : Codec) where
  -- `ImageIdentity.from_dict`
  unfoldable pub identity_from_dict : Json → Read ImageIdentity
  unfolding require_exact_keys datetime_from_dict make_identity
  identity_from_dict payload = do
    data_of ← require_exact_keys payload identity_fields
    repository ← as_text (get (codes "repository") data_of)
    version ← as_text (get (codes "version") data_of)
    digest ← as_text (get (codes "digest") data_of)
    image_id ← as_text (get (codes "image_id") data_of)
    rollback_alias ← as_text (get (codes "rollback_alias") data_of)
    tags ← as_texts (get (codes "tags") data_of)
    published_at ← nullable (datetime_from_dict codec) (get (codes "published_at") data_of)
    make_identity (record {
      repository = repository;
      version = version;
      digest = digest;
      image_id = image_id;
      tags = tags;
      rollback_alias = rollback_alias;
      published_at = published_at;
    })

  -- `CheckResult.from_dict`
  unfoldable pub check_from_dict : Json → Read CheckResult
  unfolding require_exact_keys datetime_from_dict identity_from_dict
  check_from_dict payload = do
    data_of ←
        require_exact_keys payload
          (codes "current" ∷ codes "target" ∷ codes "available" ∷ codes "checked_at" ∷ [])
    available ← as_bool (get (codes "available") data_of)
    checked_at ← datetime_from_dict codec (get (codes "checked_at") data_of)
    current ← identity_from_dict (get (codes "current") data_of)
    target ← identity_from_dict (get (codes "target") data_of)
    ok (record {
      current = current;
      target = target;
      available = available;
      checked_at = checked_at;
    })

  -- `UpdateTask.from_dict`
  unfoldable pub task_from_dict : Json → Read UpdateTask
  unfolding require_task_keys stage_of cleanup_of datetime_from_dict identity_from_dict
      journal_from_dict
  task_from_dict payload = do
    data_of ← require_task_keys payload
    id_text ← as_text (get (codes "id") data_of)
    stage_text ← as_text (get (codes "stage") data_of)
    database_backup ← as_text (get (codes "database_backup") data_of)
    uploads_backup ← as_text (get (codes "uploads_backup") data_of)
    cleanup_text ← as_text (get (codes "cleanup") data_of)
    error_code ← as_text (get (codes "error_code") data_of)
    error_message ← as_text (get (codes "error_message") data_of)
    rolled_back ← as_bool (get (codes "rolled_back") data_of)
    id ← or_raise (codec.uuid id_text) invalid_state
    stage ← or_raise (stage_of stage_text) invalid_state
    cleanup ← or_raise (cleanup_of cleanup_text) invalid_state
    created_at ← datetime_from_dict codec (get (codes "created_at") data_of)
    original ← identity_from_dict (get (codes "original") data_of)
    target ← identity_from_dict (get (codes "target") data_of)
    started_at ← nullable (datetime_from_dict codec) (get (codes "started_at") data_of)
    finished_at ← nullable (datetime_from_dict codec) (get (codes "finished_at") data_of)
    cleanup_journal ← nullable journal_from_dict (get (codes "cleanup_journal") data_of)
    ok (record {
      id = id;
      original = original;
      target = target;
      stage = stage;
      created_at = created_at;
      started_at = started_at;
      finished_at = finished_at;
      database_backup = database_backup;
      uploads_backup = uploads_backup;
      rolled_back = rolled_back;
      cleanup = cleanup;
      cleanup_journal = cleanup_journal;
      error_code = error_code;
      error_message = error_message;
    })

  -- `PersistentState.from_dict`, `persistent_state_from_dict`
  unfoldable pub state_from_dict : Json → Read PersistentState
  unfolding require_exact_keys check_from_dict task_from_dict
  state_from_dict payload = do
    data_of ← require_exact_keys payload (codes "last_check" ∷ codes "task" ∷ [])
    last_check ← nullable check_from_dict (get (codes "last_check") data_of)
    task ← nullable task_from_dict (get (codes "task") data_of)
    ok (record { last_check = last_check; task = task })
