-- ===== src/Updater/Manager/Recover.antt =====
-- `recover` of updater/manager.py, which runs when the process starts.
use finance_reconciliation.Prelude.{
  ℕ, Bool, true, false, not, ◌&&◌, ◌||◌, Option, none, some, if◌then◌else◌,
}
use finance_reconciliation.Prelude.Text.{Text, is_empty}
use finance_reconciliation.Prelude.Outcome.{Outcome, ok, err}
use finance_reconciliation.Updater.Types.{Stage, cleaning, ImageIdentity, UpdateTask}
use finance_reconciliation.Updater.Machine.{
  inspect_web, health, persist_version, Platform, Run, ◌>>=◌, ◌>>◌, return, attempt, ask, perform,
  get_state,
}
use finance_reconciliation.Updater.Manager.Tasks.{
  load_task, checkpoint, finish_failed, finish_manual, commit_success,
}
use finance_reconciliation.Updater.Manager.Cleanup.{cleanup_original, has_journal}
use finance_reconciliation.Updater.Manager.Execute.{is_persisting_version, rollback_to_original}
use finance_reconciliation.Updater.Manager.Phases.{
  Phase, before_tag, between, completing, ending, has_complete_image_identity,
  has_complete_recovery_identities, is_cleaning, is_rolling_back, is_terminal, phase,
  same_runtime_identity, update_failed,
}

module _ (p : Platform) where
  -- The `try` of `_complete_recovered_target`.
  unfoldable pub confirm_target : ℕ → Stage → Bool → Run (Unit {0})
  confirm_target id stage persist_target_version = do
    checkpoint p id stage
    t ← load_task id
    perform p (health t.target)
    (if persist_target_version
        then checkpoint p id t.stage >> perform p (persist_version t.target.version)
        else return tt)

  unfoldable pub finish_recovered : ℕ → Bool → Outcome Text (Unit {0}) → Run (Unit {0})
  finish_recovered id persist_target_version (err code) =
      rollback_to_original p id update_failed true true
  finish_recovered id persist_target_version (ok done) = do
    (if persist_target_version then checkpoint p id cleaning else return tt)
    cleaned ← cleanup_original p id
    commit_success p id cleaned

  unfoldable pub complete_target_task : ℕ → UpdateTask → Run (Unit {0})
  complete_target_task id t =
      if is_cleaning t.stage && not (has_journal t.cleanup_journal)
      then finish_manual p id
      else attempt (confirm_target id t.stage (is_persisting_version t.stage))
        >>= finish_recovered id (is_persisting_version t.stage)

  -- `_complete_recovered_target`
  unfoldable pub complete_recovered_target : ℕ → Run (Unit {0})
  complete_recovered_target id = do t ← load_task id; complete_target_task id t

  unfoldable pub finish_before_tag : ℕ → Outcome Text (Unit {0}) → Run (Unit {0})
  finish_before_tag id (err code) = finish_manual p id
  finish_before_tag id (ok done) = finish_failed p id update_failed false

  -- The branch of a stage before the tag, where the original image runs.
  unfoldable pub fail_before_tag : ℕ → Stage → Run (Unit {0})
  fail_before_tag id stage = do
    checkpoint p id stage
    t ← load_task id
    result ← attempt (perform p (health t.original))
    finish_before_tag id result

  unfoldable pub recover_original : UpdateTask → Run (Unit {0})
  recover_original t =
      if is_empty t.original.rollback_alias
      then finish_manual p t.id
      else rollback_to_original p t.id update_failed
          (is_persisting_version t.stage || is_cleaning t.stage || is_rolling_back t.stage) true

  -- What `recover` does by the stage, once the running image is known to be the original or the
  -- target.
  unfoldable pub recover_phase : UpdateTask → Bool → Phase → Run (Unit {0})
  recover_phase t is_target ending = recover_original t
  recover_phase t true completing = complete_recovered_target t.id
  recover_phase t false completing = recover_original t
  recover_phase t true before_tag = finish_manual p t.id
  recover_phase t false before_tag = fail_before_tag t.id t.stage
  recover_phase t is_target between = recover_original t

  unfoldable pub recover_from : UpdateTask → Outcome Text ImageIdentity → Run (Unit {0})
  recover_from t (err code) = finish_manual p t.id
  recover_from t (ok actual) =
      let is_original = same_runtime_identity actual t.original in
      let is_target = same_runtime_identity actual t.target in
      if not (has_complete_image_identity actual)
      then finish_manual p t.id
      else if is_original && is_target || not is_original && not is_target
      then finish_manual p t.id
      else recover_phase t is_target (phase t.stage)

  unfoldable pub recover_task : Option UpdateTask → Run (Unit {0})
  recover_task none = return tt
  recover_task (some t) =
      if is_terminal t.stage
      then return tt
      else if not (has_complete_recovery_identities t)
      then finish_manual p t.id
      else attempt (ask inspect_web p.inspected) >>= recover_from t

  -- `recover`
  unfoldable pub recover : Run (Unit {0})
  recover = do s ← get_state; recover_task s.task
