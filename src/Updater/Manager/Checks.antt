-- ===== src/Updater/Manager/Checks.antt =====
-- `check`, `start` and `status` of updater/manager.py.
use finance_reconciliation.Prelude.{
  ℕ, ◌-◌, Bool, true, false, not, ◌&&◌, ◌||◌, Option, none, some, [], ltb, leb, ◌==◌, if◌then◌else◌,
}
use finance_reconciliation.Prelude.Text.{Text, text_eq}
use finance_reconciliation.Updater.Types.{
  checking, not_run, complete, pending, CleanupStatus, fresh_journal, ImageIdentity, CheckResult,
  UpdateTask, PersistentState, TaskView, StatusView, public_view,
}
use finance_reconciliation.Updater.Versions.{version_key, is_newer}
use finance_reconciliation.Updater.Machine.{
  task_id_conflict, target_changed, stale_check, target_mismatch, no_update, repository_mismatch,
  task_active, invalid_version, inspect_web, resolve_stable, Platform, Run, ◌>>=◌, ◌>>◌, return,
  raise, raise_if, ask, get_state, save_state, current_time,
}
use finance_reconciliation.Updater.Manager.Cleanup.{is_succeeded}
use finance_reconciliation.Updater.Manager.Execute.{is_checking}
use finance_reconciliation.Updater.Manager.Phases.{is_failed}

abbrev pub is_cleaned : CleanupStatus → Bool
is_cleaned complete = true
is_cleaned not_run = false
is_cleaned pending = false

abbrev pub is_finished : UpdateTask → Bool
is_finished t = is_failed t.stage || is_succeeded t.stage && is_cleaned t.cleanup

-- `_reject_active_task`
unfoldable pub reject_active_task : Option UpdateTask → Run (Unit {0})
reject_active_task none = return tt
reject_active_task (some t) = if is_finished t then return tt else raise task_active

-- `_require_matching_repositories`
unfoldable pub require_matching_repositories : ImageIdentity → ImageIdentity → Run (Unit {0})
require_matching_repositories current target =
    if text_eq current.repository target.repository then return tt else raise repository_mismatch

unfoldable pub or_invalid : {A : Type 0} → Option A → Run A
or_invalid (some a) = return a
or_invalid none = raise invalid_version

abbrev pub view_task : Option UpdateTask → Option TaskView
view_task none = none
view_task (some t) = some (public_view t)

abbrev pub checked_view : CheckResult → Option UpdateTask → StatusView
checked_view c task = record {
  current_version = c.current.version;
  current_published_at = c.current.published_at;
  latest_version = some c.target.version;
  latest_published_at = c.target.published_at;
  update_available = c.available;
  checked_at = some c.checked_at;
  task = view_task task;
}

-- `_status_from_state`
unfoldable pub status_from_state : Option CheckResult → Option UpdateTask → Run StatusView
status_from_state none task = raise stale_check
status_from_state (some c) task = return (checked_view c task)

-- `_CHECK_MAX_AGE`, in microseconds.
abbrev pub check_max_age : ℕ
check_max_age = 120000000

-- What `start` returns: the view, and the task that the returned function executes, if any.
pub record Started : Type 0 where
  pub view : TaskView
  pub executes : Option ℕ

abbrev pub matches_id : Option ℕ → UpdateTask → Bool
matches_id none t = false
matches_id (some id) t = t.id == id

-- Where a task of that id is stored.
unfoldable pub start_again : Text → UpdateTask → Run Started
start_again target_version t =
    if text_eq t.target.version target_version
    then return (record {
      view = public_view t;
      executes = if is_checking t.stage then some t.id else none;
    })
    else raise task_id_conflict

abbrev pub id_or : Option ℕ → ℕ → ℕ
id_or none fresh = fresh
id_or (some id) fresh = id

abbrev pub new_task : ℕ → CheckResult → ℕ → UpdateTask
new_task id c now = record {
  id = id;
  original = c.current;
  target = c.target;
  stage = checking;
  created_at = now;
  started_at = none;
  finished_at = none;
  database_backup = [];
  uploads_backup = [];
  rolled_back = false;
  cleanup = not_run;
  cleanup_journal = some fresh_journal;
  error_code = [];
  error_message = [];
}

module _ (p : Platform) where
  -- `check`
  unfoldable pub check : Run StatusView
  check = do
    s ← get_state
    reject_active_task s.task
    current ← ask inspect_web p.inspected
    target ← ask resolve_stable p.stable
    require_matching_repositories current target
    available ← or_invalid (is_newer target.version current.version)
    now ← current_time p
    let result : CheckResult = record {
      current = current;
      target = target;
      available = available;
      checked_at = now;
    }
    save_state (record { last_check = some result; task = s.task })
    status_from_state (some result) s.task

  unfoldable pub check_age : CheckResult → Run CheckResult
  check_age c = do
    now ← current_time p
    raise_if (ltb now c.checked_at || leb check_max_age (now - c.checked_at)) stale_check
    require_matching_repositories c.current c.target
    return c

  unfoldable pub fresh_check : Option CheckResult → Text → Run CheckResult
  fresh_check none target_version = raise stale_check
  fresh_check (some c) target_version = do
    raise_if (not (text_eq target_version c.target.version)) target_mismatch
    raise_if (not c.available) no_update
    check_age c

  -- `_require_fresh_check`
  unfoldable pub require_fresh_check : Option CheckResult → Text → Run CheckResult
  require_fresh_check checked target_version = do
    key ← or_invalid (version_key target_version)
    fresh_check checked target_version

  -- The rest of `start`.
  unfoldable pub start_new : Text → Option ℕ → ℕ → PersistentState → Run Started
  start_new target_version task_id fresh s = do
    reject_active_task s.task
    checked ← require_fresh_check s.last_check target_version
    resolved ← ask resolve_stable p.stable
    raise_if
        (not (
          text_eq resolved.version checked.target.version
          && text_eq resolved.digest checked.target.digest))
        target_changed
    now ← current_time p
    let t = new_task (id_or task_id fresh) checked now
    save_state (record { last_check = some checked; task = some t })
    return (record { view = public_view t; executes = some t.id })

  unfoldable pub start_from :
      Text → Option ℕ → ℕ → PersistentState → Option UpdateTask → Run Started
  start_from target_version task_id fresh s none = start_new target_version task_id fresh s
  start_from target_version task_id fresh s (some t) =
      if matches_id task_id t
      then start_again target_version t
      else start_new target_version task_id fresh s

  -- `start`; `fresh` is the id that `uuid4` draws.
  unfoldable pub start : Text → Option ℕ → ℕ → Run Started
  start target_version task_id fresh = do
    s ← get_state
    start_from target_version task_id fresh s s.task

  unfoldable pub status_of_state : Option CheckResult → Option UpdateTask → Run StatusView
  status_of_state (some c) task = status_from_state (some c) task
  status_of_state none task = do
    current ← ask inspect_web p.inspected
    return (record {
      current_version = current.version;
      current_published_at = current.published_at;
      latest_version = none;
      latest_published_at = none;
      update_available = false;
      checked_at = none;
      task = view_task task;
    })

  -- `status`
  unfoldable pub status : Run StatusView
  status = do s ← get_state; status_of_state s.last_check s.task
