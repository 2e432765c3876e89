-- ===== src/Updater/Manager/Starts.antt =====
-- What `start` stores and returns, and that what it returns can be executed.
use finance_reconciliation.Prelude.{
  ℕ, ◌≡◌, refl, ap, sym, ◌∙◌, Bool, true, false, Option, none, some, arith, if◌then◌else◌,
}
use finance_reconciliation.Prelude.Text.{Text, text_eq}
use finance_reconciliation.Prelude.Outcome.{ok}
use finance_reconciliation.Updater.Types.{CheckResult, UpdateTask, PersistentState, public_view}
use finance_reconciliation.Updater.Machine.{
  task_id_conflict, target_changed, resolve_stable, clock, Platform, Machine, get_state,
  current_time,
}
use finance_reconciliation.Updater.Atomic.{
  Atomic, first, returns, raises, if-Atomic, check_first, ask-Atomic, raise_if-Atomic, save_then,
  loosen, committed,
}
use finance_reconciliation.Updater.Manager.Execute.{is_checking, execute}
use finance_reconciliation.Updater.Manager.Holds.{is_ordered_if_any, has_stopped, Ended}
use finance_reconciliation.Updater.Manager.Ends.{execute-ends}
use finance_reconciliation.Updater.Manager.Checks.{
  Started, matches_id, start_again, id_or, new_task, start_new, start_from, start,
}
use finance_reconciliation.Updater.Manager.Checked.{
  is_idle, IsFresh, reject_active_task-Atomic, require_fresh_check-IsFresh,
}

-- A new task for the target of a fresh check, stored where no task was active.
pub record IsNew (target_version : Text) (task_id : Option ℕ) (fresh : ℕ) (before : PersistentState)
    (out : Started) (now : PersistentState) : Type 0 where
  pub c : CheckResult
  pub created_at : ℕ
  pub idle : is_idle before.task ≡ true
  pub checked : IsFresh before target_version c
  pub kept : now.last_check ≡ some c
  pub stored : now.task ≡ some (new_task (id_or task_id fresh) c created_at)
  pub executes : out.executes ≡ some (id_or task_id fresh)

start_new-IsNew :
    (p : Platform) (target_version : Text) (task_id : Option ℕ) (fresh : ℕ) (s : PersistentState)
    (m : Machine)
    → m.state ≡ s
    → Atomic s (IsNew target_version task_id fresh s) (start_new p target_version task_id fresh s) m
unfolding start_new current_time
start_new-IsNew p target_version task_id fresh s m at =
    check_first _ (reject_active_task-Atomic s.task at) (λ m₁ at idle.
      first (IsFresh s target_version) (require_fresh_check-IsFresh p s target_version m₁ at)
        (λ c m₂ at checked.
          first (λ resolved. Unit {0}) (ask-Atomic resolve_stable p.stable at)
            (λ resolved m₃ at u. check_first _ (raise_if-Atomic _ target_changed at) (λ m₄ at same.
              first (λ now. Unit {0}) (ask-Atomic clock _ at)
                (λ now m₅ at u. save_then _ _ (record {
                  c = c;
                  created_at = now;
                  idle = idle;
                  checked = checked;
                  kept = refl;
                  stored = refl;
                  executes = refl;
                }))))))

-- A repeated call with the id of the stored task changes nothing, and leaves it to be executed while
-- it is still `CHECKING`.
pub record IsRepeated (target_version : Text) (task_id : Option ℕ) (before : PersistentState)
    (out : Started) (now : PersistentState) : Type 0 where
  pub t : UpdateTask
  pub stored : before.task ≡ some t
  pub asked : matches_id task_id t ≡ true
  pub same_target : text_eq t.target.version target_version ≡ true
  pub unchanged : now ≡ before
  pub shown : out.view ≡ public_view t
  pub executes : out.executes ≡ (if is_checking t.stage then some t.id else none)

pub data IsStarted (target_version : Text) (task_id : Option ℕ) (fresh : ℕ)
    (before : PersistentState) (out : Started) (now : PersistentState) : Type 0 where
  repeated :
      IsRepeated target_version task_id before out now
      → IsStarted target_version task_id fresh before out now
  new :
      IsNew target_version task_id fresh before out now
      → IsStarted target_version task_id fresh before out now

start_again-IsRepeated :
    (target_version : Text) (task_id : Option ℕ) (s : PersistentState) (t : UpdateTask)
    (m : Machine)
    → m.state ≡ s
    → s.task ≡ some t
    → matches_id task_id t ≡ true
    → Atomic s (IsRepeated target_version task_id s) (start_again target_version t) m
unfolding start_again
start_again-IsRepeated target_version task_id s t m at stored asked =
    if-Atomic _
      (λ same. returns _ (record {
        t = t;
        stored = stored;
        asked = asked;
        same_target = same;
        unchanged = at;
        shown = refl;
        executes = refl;
      }))
      (λ other. raises task_id_conflict at)

start_from-IsStarted :
    (p : Platform) (target_version : Text) (task_id : Option ℕ) (fresh : ℕ) (s : PersistentState)
    (task : Option UpdateTask) (m : Machine)
    → m.state ≡ s
    → s.task ≡ task
    → Atomic s
        (IsStarted target_version task_id fresh s)
        (start_from p target_version task_id fresh s task)
        m
unfolding start_from
start_from-IsStarted p target_version task_id fresh s none m at stored =
    loosen (λ out now. new) (start_new-IsNew p target_version task_id fresh s m at)
start_from-IsStarted p target_version task_id fresh s (some t) m at stored =
    if-Atomic (matches_id task_id t)
      (λ asked.
        loosen (λ out now. repeated)
          (start_again-IsRepeated target_version task_id s t m at stored asked))
      (λ other. loosen (λ out now. new) (start_new-IsNew p target_version task_id fresh s m at))

-- `start` either raises and leaves the saved state as it was; or, called with the id of the stored
-- task and the version of its target, returns that task and changes nothing; or stores a new task for
-- the target of a fresh check, where no task was active.
pub start-IsStarted :
    (p : Platform) (target_version : Text) (task_id : Option ℕ) (fresh : ℕ) (m : Machine)
    → Atomic m.state
        (IsStarted target_version task_id fresh m.state)
        (start p target_version task_id fresh)
        m
unfolding start get_state
start-IsStarted p target_version task_id fresh m =
    first (λ s. s ≡ m.state) (record { commits = (refl, refl) })
      (λ s m₁ at same.
        rw same
          (start_from-IsStarted p target_version task_id fresh m.state m.state.task m₁ at refl))

picked :
    (test : Bool) (i k : ℕ) → (if test then some i else none) ≡ some k → (test ≡ true) × (k ≡ i)
picked test i k h = ground arith

started-executable :
    (p : Platform) (target_version : Text) (task_id : Option ℕ) (fresh k : ℕ)
    (before : PersistentState) (out : Started) (m : Machine)
    → ((t : UpdateTask) → before.task ≡ some t → is_ordered_if_any t.cleanup_journal ≡ true)
    → has_stopped m.calls ≡ false
    → out.executes ≡ some k
    → IsStarted target_version task_id fresh before out m.state
    → (m' : Machine) × (execute p k m ≡ (m', ok tt)) × Ended k m'
started-executable p target_version task_id fresh k before out m ordered silent runs (repeated r) =
    let (ready, same) = picked (is_checking r.t.stage) r.t.id k (sym r.executes ∙ runs) in
    rw same (
      execute-ends p m r.t (ap (λ s. s.task) r.unchanged ∙ r.stored) ready (ordered r.t r.stored)
        silent)
started-executable p target_version task_id fresh k before out m ordered silent runs (new n) =
    let (ready, same) = picked true (id_or task_id fresh) k (sym n.executes ∙ runs) in
    rw same
      (execute-ends p m (new_task (id_or task_id fresh) n.c n.created_at) n.stored refl refl silent)

-- After a call of `start` that returned a task to execute, executing it returns, whatever the platform
-- answers, and ends that task. The journal of the task that was stored before, if any, is ordered, and
-- the call has not stopped the web application.
pub start-executes :
    (p : Platform) (target_version : Text) (task_id : Option ℕ) (fresh k : ℕ) (m m' : Machine)
    (out : Started)
    → ((t : UpdateTask) → m.state.task ≡ some t → is_ordered_if_any t.cleanup_journal ≡ true)
    → start p target_version task_id fresh m ≡ (m', ok out)
    → out.executes ≡ some k
    → has_stopped m'.calls ≡ false
    → (m'' : Machine) × (execute p k m' ≡ (m'', ok tt)) × Ended k m''
start-executes p target_version task_id fresh k m m' out ordered started runs silent =
    started-executable p target_version task_id fresh k m.state out m' ordered silent runs
      (committed (start-IsStarted p target_version task_id fresh m) started)
