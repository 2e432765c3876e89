-- ===== src/Updater/Manager/Execute.antt =====
-- `_execute` of updater/manager.py, with the rollback.
use finance_reconciliation.Prelude.{ℕ, zero, suc, Bool, true, false, ◌||◌, if◌then◌else◌}
use finance_reconciliation.Prelude.Text.{Text, codes, text_eq}
use finance_reconciliation.Prelude.Outcome.{Outcome, ok, err}
use finance_reconciliation.Updater.Types.{
  Stage, checking, backing_up, pulling, stopping_web, migrating, starting_web, checking_health,
  stabilizing, persisting_version, cleaning, rolling_back, succeeded, failed, manual_intervention,
  ImageIdentity, UpdateTask,
}
use finance_reconciliation.Updater.Machine.{
  safe, task_not_ready, create_backup, stop_web, verify_target, migrate_target, start_target,
  health, tag_rollback, start_rollback, persist_version, sleep, Platform, Run, ◌>>=◌, ◌>>◌, return,
  raise, attempt, ask, perform,
}
use finance_reconciliation.Updater.Manager.Tasks.{
  load_task, save_task, record_backups, checkpoint, finish_failed, finish_manual, commit_success,
}
use finance_reconciliation.Updater.Manager.Cleanup.{cleanup_original}

abbrev pub is_checking : Stage → Bool
is_checking checking = true
is_checking backing_up = false
is_checking pulling = false
is_checking stopping_web = false
is_checking migrating = false
is_checking starting_web = false
is_checking checking_health = false
is_checking stabilizing = false
is_checking persisting_version = false
is_checking cleaning = false
is_checking rolling_back = false
is_checking succeeded = false
is_checking failed = false
is_checking manual_intervention = false

abbrev pub is_persisting_version : Stage → Bool
is_persisting_version checking = false
is_persisting_version backing_up = false
is_persisting_version pulling = false
is_persisting_version stopping_web = false
is_persisting_version migrating = false
is_persisting_version starting_web = false
is_persisting_version checking_health = false
is_persisting_version stabilizing = false
is_persisting_version persisting_version = true
is_persisting_version cleaning = false
is_persisting_version rolling_back = false
is_persisting_version succeeded = false
is_persisting_version failed = false
is_persisting_version manual_intervention = false

-- `raise`, of the error that was caught.
unfoldable pub raise_again : Text → Run (Unit {0})
raise_again code m = (m, Outcome.err (safe code))

-- `_safe_error_code`
unfoldable pub safe_error_code : Text → Text
safe_error_code code =
    if text_eq code (codes "backup_failed")
      || text_eq code (codes "pull_failed")
      || text_eq code (codes "migration_failed")
      || text_eq code (codes "health_check_failed")
    then code
    else codes "update_failed"

-- `_require_ready_task`
unfoldable pub require_ready_task : ℕ → Run (Unit {0})
require_ready_task id = do
  t ← load_task id
  if is_checking t.stage then return tt else raise task_not_ready

-- `_STARTUP_HEALTH_MAX_ATTEMPTS`, `_STARTUP_HEALTH_RETRY_SECONDS`
abbrev pub max_attempts : ℕ
max_attempts = 30

abbrev pub retry_seconds : ℕ
retry_seconds = 2

-- `PlatformOperation.tag_rollback` sets the alias in the task that it is passed.
abbrev pub with_alias : Text → UpdateTask → UpdateTask
with_alias alias t = record t { original = record t.original { rollback_alias = alias } }

module _ (p : Platform) where
  unfoldable pub pause : ℕ → Run (Unit {0})
  pause seconds = ask (sleep seconds) (λ calls. ok tt)

  -- After a call of `health`: returns, raises the last error, or goes on.
  unfoldable pub retry_health : ℕ → Run (Unit {0}) → Outcome Text (Unit {0}) → Run (Unit {0})
  retry_health left again (ok done) = return tt
  retry_health zero again (err code) = raise_again code
  retry_health (suc left) again (err code) = again

  -- `_wait_for_startup_health`, with the attempts that are left.
  unfoldable pub wait_for_health : ImageIdentity → ℕ → Run (Unit {0})
  wait_for_health expected zero = return tt
  wait_for_health expected (suc left) = do
    result ← attempt (perform p (health expected))
    retry_health left (pause retry_seconds >> wait_for_health expected left) result

  -- The loop of `_stabilize`.
  unfoldable pub stabilize_rounds : ℕ → ℕ → Run (Unit {0})
  stabilize_rounds id zero = return tt
  stabilize_rounds id (suc left) = do
    pause 5
    checkpoint p id stabilizing
    t ← load_task id
    perform p (health t.target)
    stabilize_rounds id left

  -- `_stabilize`
  unfoldable pub stabilize : ℕ → Run (Unit {0})
  stabilize id = do checkpoint p id stabilizing; stabilize_rounds id 3

  -- The `try` of `_rollback_to_original`.
  unfoldable pub restore_original : ℕ → Stage → Bool → Run (Unit {0})
  restore_original id stage restore_version = do
    t ← load_task id
    perform p (start_rollback t)
    checkpoint p id stage
    wait_for_health t.original max_attempts
    (if restore_version
        then checkpoint p id stage >> perform p (persist_version t.original.version)
        else return tt)

  unfoldable pub finish_rollback : ℕ → Text → Outcome Text (Unit {0}) → Run (Unit {0})
  finish_rollback id code (err again) = finish_manual p id
  finish_rollback id code (ok done) = finish_failed p id code true

  -- `_rollback_to_original`
  unfoldable pub rollback_to_original : ℕ → Text → Bool → Bool → Run (Unit {0})
  rollback_to_original id code restore_version preserve_stage = do
    t ← load_task id
    let stage = if preserve_stage then t.stage else rolling_back
    save_task (record t { stage = stage; error_code = code })
    result ← attempt (restore_original id stage restore_version)
    finish_rollback id code result

  -- `_handle_failure`
  unfoldable pub handle_failure : ℕ → Text → Bool → Run (Unit {0})
  handle_failure id code false = finish_failed p id code false
  handle_failure id code true = do
    t ← load_task id
    rollback_to_original id code (is_persisting_version t.stage) false

  -- The `try` of `_execute` as far as `web_was_stopped = True`.
  unfoldable pub prepare : ℕ → Run (Unit {0})
  prepare id = do
    checkpoint p id backing_up
    backups ← ask create_backup p.backups
    record_backups id backups
    checkpoint p id pulling
    t ← load_task id
    perform p (verify_target t.target)
    checkpoint p id pulling
    pulled ← load_task id
    alias ← ask (tag_rollback pulled) (p.tagged pulled)
    save_task (with_alias alias pulled)
    checkpoint p id stopping_web

  -- The rest of it.
  unfoldable pub replace_web : ℕ → Run (Unit {0})
  replace_web id = do
    perform p stop_web
    checkpoint p id migrating
    t ← load_task id
    perform p (migrate_target t.target)
    checkpoint p id starting_web
    migrated ← load_task id
    perform p (start_target migrated.target)
    checkpoint p id checking_health
    begun ← load_task id
    wait_for_health begun.target max_attempts
    stabilize id
    checkpoint p id persisting_version
    stable ← load_task id
    perform p (persist_version stable.target.version)

  unfoldable pub finish_update : ℕ → Outcome Text (Unit {0}) → Run (Unit {0})
  finish_update id (err code) = handle_failure id (safe_error_code code) true
  finish_update id (ok done) = do
    checkpoint p id cleaning
    cleaned ← cleanup_original p id
    commit_success p id cleaned

  unfoldable pub go_on : ℕ → Outcome Text (Unit {0}) → Run (Unit {0})
  go_on id (err code) = handle_failure id (safe_error_code code) false
  go_on id (ok done) = do result ← attempt (replace_web id); finish_update id result

  -- `_execute`
  unfoldable pub execute : ℕ → Run (Unit {0})
  execute id = do require_ready_task id; result ← attempt (prepare id); go_on id result
