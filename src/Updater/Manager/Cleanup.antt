-- ===== src/Updater/Manager/Cleanup.antt =====
-- `_cleanup_original` and `complete_pending_cleanup` of updater/manager.py.
use finance_reconciliation.Prelude.{
  ℕ, Bool, true, false, not, ◌&&◌, Option, none, some, List, [], ◌∷◌, if◌then◌else◌,
}
use finance_reconciliation.Prelude.Text.{Text}
use finance_reconciliation.Prelude.Outcome.{Outcome, ok, err}
use finance_reconciliation.Updater.Types.{
  Stage, checking, backing_up, pulling, stopping_web, migrating, starting_web, checking_health,
  stabilizing, persisting_version, cleaning, rolling_back, succeeded, failed, manual_intervention,
  CleanupStatus, not_run, complete, pending, CleanupStep, version_tag, rollback_alias, image_id,
  CleanupStepStatus, not_started, started, completed, CleanupJournal, is_started, is_ordered,
  is_complete, status_of, with_status, UpdateTask, PersistentState,
}
use finance_reconciliation.Updater.Machine.{
  invalid_state, cleanup_not_pending, cleanup_incomplete, cleanup_original_step, Platform, Run,
  ◌>>=◌, ◌>>◌, return, raise, raise_if, attempt, perform, get_state,
}
use finance_reconciliation.Updater.Manager.Tasks.{load_task, save_task}

abbrev pub is_not_run : CleanupStatus → Bool
is_not_run not_run = true
is_not_run complete = false
is_not_run pending = false

abbrev pub is_pending : CleanupStatus → Bool
is_pending not_run = false
is_pending complete = false
is_pending pending = true

abbrev pub is_succeeded : Stage → Bool
is_succeeded succeeded = true
is_succeeded checking = false
is_succeeded backing_up = false
is_succeeded pulling = false
is_succeeded stopping_web = false
is_succeeded migrating = false
is_succeeded starting_web = false
is_succeeded checking_health = false
is_succeeded stabilizing = false
is_succeeded persisting_version = false
is_succeeded cleaning = false
is_succeeded rolling_back = false
is_succeeded failed = false
is_succeeded manual_intervention = false

-- `replace(journal, **{step.value: status})`, whose `__post_init__` may raise.
unfoldable pub replace_status :
    CleanupStep → CleanupStepStatus → CleanupJournal → Run CleanupJournal
replace_status step status j =
    if is_ordered (with_status step status j)
    then return (with_status step status j)
    else raise invalid_state

abbrev pub with_journal : CleanupJournal → UpdateTask → UpdateTask
with_journal j t = record t { cleanup_journal = some j }

-- What follows a cleanup call that returned.
unfoldable pub confirm_journal : CleanupStep → UpdateTask → Option CleanupJournal → Run Bool
confirm_journal step t none = return false
confirm_journal step t (some j) =
    if is_started (status_of step j)
    then replace_status step completed j
      >>= (λ done. save_task (with_journal done t) >> return true)
    else return false

unfoldable pub confirm_step : ℕ → CleanupStep → Outcome Text (Unit {0}) → Run Bool
confirm_step id step (err code) = return false
confirm_step id step (ok done) = do t ← load_task id; confirm_journal step t t.cleanup_journal

-- `_CLEANUP_STEPS`
abbrev pub all_steps : List CleanupStep
all_steps = version_tag ∷ rollback_alias ∷ image_id ∷ []

abbrev pub journal_complete : Option CleanupJournal → Bool
journal_complete none = false
journal_complete (some j) = is_complete j

abbrev pub has_journal : Option CleanupJournal → Bool
has_journal none = false
has_journal (some j) = true

-- `if task.cleanup is CleanupStatus.NOT_RUN: …`
unfoldable pub mark_pending : UpdateTask → Run (Unit {0})
mark_pending t =
    if is_not_run t.cleanup then save_task (record t { cleanup = pending }) else return tt

module _ (p : Platform) where
  unfoldable pub call_step : ℕ → CleanupStep → Run Bool
  call_step id step = do
    t ← load_task id
    result ← attempt (perform p (cleanup_original_step t step))
    confirm_step id step result

  unfoldable pub begin_step :
      ℕ → CleanupStep → UpdateTask → CleanupJournal → CleanupStepStatus → Run Bool
  begin_step id step t j completed = return true
  begin_step id step t j started = call_step id step
  begin_step id step t j not_started = do
    marked ← replace_status step started j
    save_task (with_journal marked t)
    call_step id step

  -- One turn of the loop of `_cleanup_original`; `false` where the method returns.
  unfoldable pub journal_step : ℕ → CleanupStep → UpdateTask → Option CleanupJournal → Run Bool
  journal_step id step t none = return false
  journal_step id step t (some j) = begin_step id step t j (status_of step j)

  unfoldable pub cleanup_steps : ℕ → List CleanupStep → Run Bool
  cleanup_steps id [] = return true
  cleanup_steps id (step ∷ steps) = do
    t ← load_task id
    fine ← journal_step id step t t.cleanup_journal
    if fine then cleanup_steps id steps else return false

  unfoldable pub cleanup_task : ℕ → UpdateTask → Option CleanupJournal → Run Bool
  cleanup_task id t none = return false
  cleanup_task id t (some j) = do mark_pending t; cleanup_steps id all_steps

  -- `_cleanup_original`
  unfoldable pub cleanup_original : ℕ → Run Bool
  cleanup_original id = do t ← load_task id; cleanup_task id t t.cleanup_journal

  unfoldable pub complete_pending : Option UpdateTask → Run PersistentState
  complete_pending none = raise cleanup_not_pending
  complete_pending (some t) = do
    raise_if (not (is_succeeded t.stage && is_pending t.cleanup && has_journal t.cleanup_journal))
        cleanup_not_pending
    fine ← cleanup_original t.id
    raise_if (not fine) cleanup_incomplete
    cleaned ← load_task t.id
    raise_if (not (journal_complete cleaned.cleanup_journal)) cleanup_incomplete
    save_task (record cleaned { cleanup = complete })
    get_state

  -- `complete_pending_cleanup`
  unfoldable pub complete_pending_cleanup : Run PersistentState
  complete_pending_cleanup = do s ← get_state; complete_pending s.task
