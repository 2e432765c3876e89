-- ===== src/Updater/Valid/Cleans.antt =====
-- The saves of updater/manager.py, its checkpoints and the journalled cleanup, from a valid state.
use finance_reconciliation.Prelude.{
  ℕ, ◌≡◌, Bool, true, false, Option, none, some, List, [], ◌∷◌, and_left, and_right, and_both, ◌==◌,
}
use finance_reconciliation.Prelude.Text.{Text}
use finance_reconciliation.Prelude.Outcome.{Outcome, ok, err}
use finance_reconciliation.Updater.Machine.{Platform, Run, cleanup_original_step, ◌>>=◌}
use finance_reconciliation.Updater.Types.{
  Stage, CleanupStep, CleanupStepStatus, not_started, started, completed, CleanupJournal,
  is_started, is_ordered, status_of, with_status, UpdateTask, PersistentState,
}
use finance_reconciliation.Updater.Manager.Cleanup.{
  is_not_run, all_steps, replace_status, with_journal, confirm_journal, confirm_step, mark_pending,
  call_step, begin_step, journal_step, cleanup_steps, cleanup_task, cleanup_original,
  complete_pending, complete_pending_cleanup,
}
use finance_reconciliation.Updater.Manager.Tasks.{
  require_task, load_task, save_task, record_backups, start_time, checkpoint, finish_failed,
  finish_manual, commit_success,
}
use finance_reconciliation.Updater.State.RoundTrip.{is_image, is_check, is_task, is_valid}
use finance_reconciliation.Updater.Valid.Rules.{
  Gives, Any, return-Gives, raise-Gives, if-Gives, and-Gives, get_state-Gives, save_state-Gives,
  next-Gives, attempt-Gives, raise_if-Gives, perform-Gives, current_time-Gives, forget_value,
}

pub is_valid-task : (s : PersistentState) → is_valid s ≡ true → is_task s.task ≡ true
unfolding is_valid
is_valid-task s h = and_right (is_check s.last_check) _ h

pub is_valid-check : (s : PersistentState) → is_valid s ≡ true → is_check s.last_check ≡ true
unfolding is_valid
is_valid-check s h = and_left (is_check s.last_check) _ h

require_task-Gives :
    (task : Option UpdateTask) (id : ℕ)
    → is_task task ≡ true
    → Gives (λ t. is_task (some t) ≡ true) (require_task task id)
unfolding require_task
require_task-Gives none id h = raise-Gives _
require_task-Gives (some t) id h =
    if-Gives (t.id == id) (λ same. return-Gives t h) (λ other. raise-Gives _)

pub load_task-Gives : (id : ℕ) → Gives (λ t. is_task (some t) ≡ true) (load_task id)
unfolding load_task
load_task-Gives id =
    and-Gives get_state-Gives (λ s valid. require_task-Gives s.task id (is_valid-task s valid))

pub save_task-Gives : (t : UpdateTask) → is_task (some t) ≡ true → Gives Any (save_task t)
unfolding save_task is_valid
save_task-Gives t h =
    and-Gives get_state-Gives
      (λ s valid. save_state-Gives _ (and_both _ _ (is_valid-check s valid) h))

-- A task that can be read back, with its images.
abbrev pub IsTask : UpdateTask → Type 0
IsTask t = is_task (some t) ≡ true

pub original-is_image : (t : UpdateTask) → IsTask t → is_image t.original ≡ true
original-is_image t h = and_left (is_image t.original) _ h

pub target-is_image : (t : UpdateTask) → IsTask t → is_image t.target ≡ true
target-is_image t h = and_left (is_image t.target) _ (and_right (is_image t.original) _ h)

with_journal-IsTask :
    (t : UpdateTask) (j : CleanupJournal)
    → IsTask t
    → is_ordered j ≡ true
    → IsTask (with_journal j t)
with_journal-IsTask t j h ordered =
    and_both _ _ (original-is_image t h) (and_both _ _ (target-is_image t h) ordered)

-- Load the task, and go on.
pub with_task-Gives :
    {A : Type 0} {Q : A → Type 0} (id : ℕ) {rest : UpdateTask → Run A}
    → ((t : UpdateTask) → IsTask t → Gives Q (rest t))
    → Gives Q (load_task id >>= rest)
with_task-Gives id k = and-Gives (load_task-Gives id) k

pub record_backups-Gives : (id : ℕ) (backups : Text × Text) → Gives Any (record_backups id backups)
unfolding record_backups
record_backups-Gives id backups = with_task-Gives id (λ t h. save_task-Gives _ h)

module _ (p : Platform) where
  start_time-Gives : (time : Option ℕ) → Gives Any (start_time p time)
  unfolding start_time
  start_time-Gives none = current_time-Gives p
  start_time-Gives (some time) = return-Gives time tt

  pub checkpoint-Gives : (id : ℕ) (stage : Stage) → Gives Any (checkpoint p id stage)
  unfolding checkpoint
  checkpoint-Gives id stage =
      with_task-Gives id
        λ t h. and-Gives (start_time-Gives t.started_at) (λ time any. save_task-Gives _ h)

  pub finish_failed-Gives :
      (id : ℕ) (code : Text) (rolled_back : Bool) → Gives Any (finish_failed p id code rolled_back)
  unfolding finish_failed
  finish_failed-Gives id code rolled_back =
      with_task-Gives id λ t h. and-Gives (current_time-Gives p) (λ time any. save_task-Gives _ h)

  pub finish_manual-Gives : (id : ℕ) → Gives Any (finish_manual p id)
  unfolding finish_manual
  finish_manual-Gives id =
      with_task-Gives id λ t h. and-Gives (current_time-Gives p) (λ time any. save_task-Gives _ h)

  pub commit_success-Gives :
      (id : ℕ) (cleanup_complete : Bool) → Gives Any (commit_success p id cleanup_complete)
  unfolding commit_success is_valid
  commit_success-Gives id cleanup_complete = with_task-Gives id λ t h.
      and-Gives (current_time-Gives p) λ finished any.
        and-Gives (current_time-Gives p) λ checked any.
          let target : is_image t.target ≡ true = target-is_image t h in
          save_state-Gives _ (and_both _ _ (and_both _ _ target target) h)

replace_status-Gives :
    (step : CleanupStep) (status : CleanupStepStatus) (j : CleanupJournal)
    → Gives (λ j. is_ordered j ≡ true) (replace_status step status j)
unfolding replace_status
replace_status-Gives step status j =
    if-Gives (is_ordered (with_status step status j)) (λ ordered. return-Gives _ ordered)
      (λ other. raise-Gives _)

confirm_journal-Gives :
    (step : CleanupStep) (t : UpdateTask) (journal : Option CleanupJournal)
    → IsTask t
    → Gives Any (confirm_journal step t journal)
unfolding confirm_journal
confirm_journal-Gives step t none h = return-Gives false tt
confirm_journal-Gives step t (some j) h =
    if-Gives (is_started (status_of step j))
      (λ now. and-Gives (replace_status-Gives step completed j) λ done ordered.
        next-Gives (save_task-Gives _ (with_journal-IsTask t done h ordered))
          (return-Gives true tt))
      (λ other. return-Gives false tt)

confirm_step-Gives :
    (id : ℕ) (step : CleanupStep) (result : Outcome Text (Unit {0}))
    → Gives Any (confirm_step id step result)
unfolding confirm_step
confirm_step-Gives id step (err code) = return-Gives false tt
confirm_step-Gives id step (ok done) =
    with_task-Gives id (λ t h. confirm_journal-Gives step t t.cleanup_journal h)

mark_pending-Gives : (t : UpdateTask) → IsTask t → Gives Any (mark_pending t)
unfolding mark_pending
mark_pending-Gives t h =
    if-Gives (is_not_run t.cleanup) (λ fresh. save_task-Gives _ h) (λ other. return-Gives tt tt)

module _ (p : Platform) where
  call_step-Gives : (id : ℕ) (step : CleanupStep) → Gives Any (call_step p id step)
  unfolding call_step
  call_step-Gives id step = with_task-Gives id λ t h.
      and-Gives (attempt-Gives (perform-Gives p (cleanup_original_step t step)))
        (λ result any. confirm_step-Gives id step result)

  begin_step-Gives :
      (id : ℕ) (step : CleanupStep) (t : UpdateTask) (j : CleanupJournal)
      (status : CleanupStepStatus)
      → IsTask t
      → Gives Any (begin_step p id step t j status)
  unfolding begin_step
  begin_step-Gives id step t j completed h = return-Gives true tt
  begin_step-Gives id step t j started h = call_step-Gives id step
  begin_step-Gives id step t j not_started h =
      and-Gives (replace_status-Gives step started j) λ marked ordered.
        next-Gives (save_task-Gives _ (with_journal-IsTask t marked h ordered))
          (call_step-Gives id step)

  journal_step-Gives :
      (id : ℕ) (step : CleanupStep) (t : UpdateTask) (journal : Option CleanupJournal)
      → IsTask t
      → Gives Any (journal_step p id step t journal)
  unfolding journal_step
  journal_step-Gives id step t none h = return-Gives false tt
  journal_step-Gives id step t (some j) h = begin_step-Gives id step t j (status_of step j) h

  cleanup_steps-Gives : (id : ℕ) (steps : List CleanupStep) → Gives Any (cleanup_steps p id steps)
  unfolding cleanup_steps
  cleanup_steps-Gives id [] = return-Gives true tt
  cleanup_steps-Gives id (step ∷ steps) = with_task-Gives id λ t h.
      and-Gives (journal_step-Gives id step t t.cleanup_journal h)
        λ fine any. if-Gives fine (λ so. cleanup_steps-Gives id steps) (λ no. return-Gives false tt)

  cleanup_task-Gives :
      (id : ℕ) (t : UpdateTask) (journal : Option CleanupJournal)
      → IsTask t
      → Gives Any (cleanup_task p id t journal)
  unfolding cleanup_task
  cleanup_task-Gives id t none h = return-Gives false tt
  cleanup_task-Gives id t (some j) h =
      next-Gives (mark_pending-Gives t h) (cleanup_steps-Gives id all_steps)

  pub cleanup_original-Gives : (id : ℕ) → Gives Any (cleanup_original p id)
  unfolding cleanup_original
  cleanup_original-Gives id =
      with_task-Gives id (λ t h. cleanup_task-Gives id t t.cleanup_journal h)

  complete_pending-Gives : (task : Option UpdateTask) → Gives Any (complete_pending p task)
  unfolding complete_pending
  complete_pending-Gives none = raise-Gives _
  complete_pending-Gives (some t) = next-Gives (raise_if-Gives _ _) (
      and-Gives (cleanup_original-Gives t.id) λ fine any. next-Gives (raise_if-Gives _ _) (
        with_task-Gives t.id λ cleaned h.
          next-Gives (raise_if-Gives _ _)
            (next-Gives (save_task-Gives _ h) (forget_value get_state-Gives))))

  pub complete_pending_cleanup-Gives : Gives Any (complete_pending_cleanup p)
  unfolding complete_pending_cleanup
  complete_pending_cleanup-Gives =
      and-Gives get_state-Gives (λ s valid. complete_pending-Gives s.task)
