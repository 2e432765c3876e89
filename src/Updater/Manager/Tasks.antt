-- ===== src/Updater/Manager/Tasks.antt =====
-- The helpers of `UpdateManager` that read and save the task.
use finance_reconciliation.Prelude.{ℕ, Bool, false, Option, none, some, ◌==◌, if◌then◌else◌}
use finance_reconciliation.Prelude.Text.{Text, codes}
use finance_reconciliation.Updater.Types.{
  Stage, succeeded, failed, manual_intervention, complete, pending, UpdateTask,
}
use finance_reconciliation.Updater.Machine.{
  task_not_found, Platform, Run, ◌>>=◌, return, raise, get_state, save_state, current_time,
}

-- `_require_task`
unfoldable pub require_task : Option UpdateTask → ℕ → Run UpdateTask
require_task none id = raise task_not_found
require_task (some t) id = if t.id == id then return t else raise task_not_found

-- `_task`
unfoldable pub load_task : ℕ → Run UpdateTask
load_task id = do s ← get_state; require_task s.task id

-- `_save_task`
unfoldable pub save_task : UpdateTask → Run (Unit {0})
save_task t = do s ← get_state; save_state (record { last_check = s.last_check; task = some t })

-- `_record_backups`
unfoldable pub record_backups : ℕ → Text × Text → Run (Unit {0})
record_backups id (database_backup, uploads_backup) = do
  t ← load_task id
  save_task (record t { database_backup = database_backup; uploads_backup = uploads_backup })

module _ (p : Platform) where
  -- `if task.started_at is None: task.started_at = self._now()`
  unfoldable pub start_time : Option ℕ → Run ℕ
  start_time none = current_time p
  start_time (some time) = return time

  -- `_checkpoint`
  unfoldable pub checkpoint : ℕ → Stage → Run (Unit {0})
  checkpoint id stage = do
    t ← load_task id
    time ← start_time t.started_at
    save_task (record t { stage = stage; started_at = some time })

  -- `_finish_failed`
  unfoldable pub finish_failed : ℕ → Text → Bool → Run (Unit {0})
  finish_failed id code rolled_back = do
    t ← load_task id
    time ← current_time p
    save_task (record t {
      stage = failed;
      rolled_back = rolled_back;
      error_code = code;
      finished_at = some time;
    })

  -- `_finish_manual`
  unfoldable pub finish_manual : ℕ → Run (Unit {0})
  finish_manual id = do
    t ← load_task id
    time ← current_time p
    save_task (record t {
      stage = manual_intervention;
      error_code = codes "rollback_failed";
      finished_at = some time;
    })

  -- `_commit_success`
  unfoldable pub commit_success : ℕ → Bool → Run (Unit {0})
  commit_success id cleanup_complete = do
    t ← load_task id
    finished ← current_time p
    checked ← current_time p
    save_state (record {
      last_check = some (record {
        current = t.target;
        target = t.target;
        available = false;
        checked_at = checked;
      });
      task = some (record t {
        stage = succeeded;
        cleanup = if cleanup_complete then complete else pending;
        finished_at = some finished;
      });
    })
