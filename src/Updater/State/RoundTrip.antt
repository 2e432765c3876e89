-- ===== src/Updater/State/RoundTrip.antt =====
-- What `to_dict` of updater/types.py writes, `from_dict` reads back.
use finance_reconciliation.Prelude.{
  and_left, and_right, ℕ, ◌≡◌, refl, Bool, true, ◌&&◌, Option, none, some, List, [], ◌∷◌, is_some,
}
use finance_reconciliation.Prelude.Text.{Text}
use finance_reconciliation.Prelude.Outcome.{ok}
use finance_reconciliation.Updater.Types.{
  Stage, checking, backing_up, pulling, stopping_web, migrating, starting_web, checking_health,
  stabilizing, persisting_version, cleaning, rolling_back, succeeded, failed, manual_intervention,
  CleanupStatus, not_run, complete, pending, CleanupStepStatus, not_started, started, completed,
  CleanupJournal, is_ordered, ImageIdentity, CheckResult, UpdateTask, PersistentState,
}
use finance_reconciliation.Updater.Versions.{version_key}
use finance_reconciliation.Updater.State.Json.{
  Codec, utc, texts_of, json_texts, datetime_from_dict, datetime_to_dict, nullable,
}
use finance_reconciliation.Updater.State.Encode.{
  stage_value, cleanup_value, step_value, journal_to_dict, optional, identity_to_dict,
  check_to_dict, task_to_dict, state_to_dict,
}
use finance_reconciliation.Updater.State.Decode.{
  stage_of, cleanup_of, step_of, step_from, journal_from_dict, identity_from_dict, check_from_dict,
  task_from_dict, state_from_dict,
}

-- What the constructors accept: images with a version, and a journal in order.
abbrev pub is_image : ImageIdentity → Bool
is_image i = is_some (version_key i.version)

abbrev pub has_order : Option CleanupJournal → Bool
has_order none = true
has_order (some j) = is_ordered j

abbrev pub is_check : Option CheckResult → Bool
is_check none = true
is_check (some c) = is_image c.current && is_image c.target

abbrev pub is_task : Option UpdateTask → Bool
is_task none = true
is_task (some t) = is_image t.original && (is_image t.target && has_order t.cleanup_journal)

unfoldable pub is_valid : PersistentState → Bool
is_valid s = is_check s.last_check && is_task s.task

texts_of-json_texts : (ts : List Text) → texts_of (json_texts ts) ≡ ok ts
texts_of-json_texts [] = refl
texts_of-json_texts (t ∷ ts) = rw (texts_of-json_texts ts)

stage_of-stage_value : (s : Stage) → stage_of (stage_value s) ≡ some s
unfolding stage_of
stage_of-stage_value checking = refl
stage_of-stage_value backing_up = refl
stage_of-stage_value pulling = refl
stage_of-stage_value stopping_web = refl
stage_of-stage_value migrating = refl
stage_of-stage_value starting_web = refl
stage_of-stage_value checking_health = refl
stage_of-stage_value stabilizing = refl
stage_of-stage_value persisting_version = refl
stage_of-stage_value cleaning = refl
stage_of-stage_value rolling_back = refl
stage_of-stage_value succeeded = refl
stage_of-stage_value failed = refl
stage_of-stage_value manual_intervention = refl

cleanup_of-cleanup_value : (s : CleanupStatus) → cleanup_of (cleanup_value s) ≡ some s
unfolding cleanup_of
cleanup_of-cleanup_value not_run = refl
cleanup_of-cleanup_value complete = refl
cleanup_of-cleanup_value pending = refl

step_of-step_value : (s : CleanupStepStatus) → step_of (step_value s) ≡ some s
unfolding step_of
step_of-step_value not_started = refl
step_of-step_value started = refl
step_of-step_value completed = refl

journal_from_dict-journal_to_dict :
    (j : CleanupJournal) → is_ordered j ≡ true → journal_from_dict (journal_to_dict j) ≡ ok j
unfolding journal_from_dict step_from
journal_from_dict-journal_to_dict j h =
    rw (step_of-step_value j.on_version_tag)
      (rw (step_of-step_value j.on_rollback_alias) (rw (step_of-step_value j.on_image_id) (rw h)))

module _ (codec : Codec)
    (reads_time : (t : ℕ) → codec.fromisoformat (codec.isoformat t) ≡ some (utc t))
    (reads_uuid : (k : ℕ) → codec.uuid (codec.str_uuid k) ≡ some k) where
  reads_optional_time :
      (t : Option ℕ) → nullable (datetime_from_dict codec) (datetime_to_dict codec t) ≡ ok t
  unfolding datetime_from_dict
  reads_optional_time none = refl
  reads_optional_time (some t) = rw (reads_time t)

  identity_from_dict-identity_to_dict :
      (i : ImageIdentity)
      → is_image i ≡ true
      → identity_from_dict codec (identity_to_dict codec i) ≡ ok i
  unfolding identity_from_dict
  identity_from_dict-identity_to_dict i h =
      rw (texts_of-json_texts i.tags) (rw (reads_optional_time i.published_at) (rw h))

  check_from_dict-check_to_dict :
      (c : CheckResult)
      → is_check (some c) ≡ true
      → check_from_dict codec (check_to_dict codec c) ≡ ok c
  unfolding check_from_dict
  check_from_dict-check_to_dict c h =
      let of_current : is_image c.current ≡ true = and_left (is_image c.current) _ h in
      let of_target : is_image c.target ≡ true = and_right (is_image c.current) _ h in
      rw (reads_time c.checked_at) (
        rw (identity_from_dict-identity_to_dict c.current of_current)
          (rw (identity_from_dict-identity_to_dict c.target of_target)))

  reads_optional_journal :
      (j : Option CleanupJournal)
      → has_order j ≡ true
      → nullable journal_from_dict (optional journal_to_dict j) ≡ ok j
  reads_optional_journal none h = refl
  reads_optional_journal (some j) h = rw (journal_from_dict-journal_to_dict j h)

  task_from_dict-task_to_dict :
      (t : UpdateTask)
      → is_task (some t) ≡ true
      → task_from_dict codec (task_to_dict codec t) ≡ ok t
  unfolding task_from_dict
  task_from_dict-task_to_dict t h =
      let of_original : is_image t.original ≡ true = and_left (is_image t.original) _ h in
      let rest = and_right (is_image t.original) _ h in
      let of_target : is_image t.target ≡ true = and_left (is_image t.target) _ rest in
      let of_journal : has_order t.cleanup_journal ≡ true = and_right (is_image t.target) _ rest in
      rw (reads_uuid t.id) (
        rw (stage_of-stage_value t.stage) (
          rw (cleanup_of-cleanup_value t.cleanup) (
            rw (reads_time t.created_at) (
              rw (identity_from_dict-identity_to_dict t.original of_original) (
                rw (identity_from_dict-identity_to_dict t.target of_target) (
                  rw (reads_optional_time t.started_at) (
                    rw (reads_optional_time t.finished_at)
                      (rw (reads_optional_journal t.cleanup_journal of_journal)))))))))

  reads_optional_check :
      (c : Option CheckResult)
      → is_check c ≡ true
      → nullable (check_from_dict codec) (optional (check_to_dict codec) c) ≡ ok c
  reads_optional_check none h = refl
  reads_optional_check (some c) h = rw (check_from_dict-check_to_dict c h)

  reads_optional_task :
      (t : Option UpdateTask)
      → is_task t ≡ true
      → nullable (task_from_dict codec) (optional (task_to_dict codec) t) ≡ ok t
  reads_optional_task none h = refl
  reads_optional_task (some t) h = rw (task_from_dict-task_to_dict t h)

  -- A state that the constructors accept is read back from what is written of it, if `fromisoformat`
  -- reads what `isoformat` writes of a time stamp in UTC, and `UUID` what `str` does of a UUID.
  pub state_from_dict-state_to_dict :
      (s : PersistentState)
      → is_valid s ≡ true
      → state_from_dict codec (state_to_dict codec s) ≡ ok s
  unfolding state_from_dict state_to_dict is_valid
  state_from_dict-state_to_dict s h =
      rw (reads_optional_check s.last_check (and_left (is_check s.last_check) _ h))
        (rw (reads_optional_task s.task (and_right (is_check s.last_check) _ h)))
