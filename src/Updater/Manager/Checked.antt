-- ===== src/Updater/Manager/Checked.antt =====
-- `check` and `start` save at their end or not at all.
use finance_reconciliation.Prelude.{
  ℕ, ◌≡◌, refl, ap, sym, ◌∙◌, ◌≤◌, ◌<◌, ◌+◌, Bool, true, Option, none, some, arith,
}
use finance_reconciliation.Prelude.Text.{Text, text_eq}
use finance_reconciliation.Updater.Types.{
  ImageIdentity, CheckResult, UpdateTask, PersistentState, StatusView,
}
use finance_reconciliation.Updater.Versions.{version_key, is_newer}
use finance_reconciliation.Updater.Machine.{
  task_active, repository_mismatch, invalid_version, target_mismatch, no_update, stale_check,
  inspect_web, resolve_stable, clock, Platform, Machine, get_state, current_time,
}
use finance_reconciliation.Updater.Atomic.{
  Atomic, first, returns, raises, if-Atomic, check_first, ask-Atomic, raise_if-Atomic, save_then,
}
use finance_reconciliation.Updater.Manager.Checks.{
  is_finished, reject_active_task, require_matching_repositories, or_invalid, checked_view,
  status_from_state, check_max_age, check, check_age, fresh_check, require_fresh_check,
}

-- No task that is still active.
abbrev pub is_idle : Option UpdateTask → Bool
is_idle none = true
is_idle (some t) = is_finished t

module _ {s : PersistentState} {m : Machine} where
  pub reject_active_task-Atomic :
      (task : Option UpdateTask)
      → m.state ≡ s
      → Atomic s (λ done now. (now ≡ s) × (is_idle task ≡ true)) (reject_active_task task) m
  unfolding reject_active_task
  reject_active_task-Atomic none h = returns tt (h, refl)
  reject_active_task-Atomic (some t) h =
      if-Atomic (is_finished t) (λ yes. returns tt (h, yes)) (λ no. raises task_active h)

  pub require_matching_repositories-Atomic :
      (current target : ImageIdentity)
      → m.state ≡ s
      → Atomic s
          (λ done now. (now ≡ s) × (text_eq current.repository target.repository ≡ true))
          (require_matching_repositories current target)
          m
  unfolding require_matching_repositories
  require_matching_repositories-Atomic current target h =
      if-Atomic _ (λ yes. returns tt (h, yes)) (λ no. raises repository_mismatch h)

  pub or_invalid-Atomic :
      {A : Type 0} (o : Option A)
      → m.state ≡ s
      → Atomic s (λ a now. (now ≡ s) × (o ≡ some a)) (or_invalid o) m
  unfolding or_invalid
  or_invalid-Atomic (some a) h = returns a (h, refl)
  or_invalid-Atomic none h = raises invalid_version h

-- The result of a check that has been saved: of two images of one repository, it is available when
-- the version of the target is the later one; the task is kept, and is not active.
pub record IsChecked (before : PersistentState) (view : StatusView) (now : PersistentState)
    : Type 0 where
  pub c : CheckResult
  pub saved : now.last_check ≡ some c
  pub kept : now.task ≡ before.task
  pub idle : is_idle before.task ≡ true
  pub one_repository : text_eq c.current.repository c.target.repository ≡ true
  pub compared : is_newer c.target.version c.current.version ≡ some c.available
  pub shown : view ≡ checked_view c before.task

-- `check` either raises and leaves the saved state as it was, or saves a check that compares the two
-- versions and returns the view of it, and then the state had no active task, and keeps its task.
pub check-IsChecked : (p : Platform) (m : Machine) → Atomic m.state (IsChecked m.state) (check p) m
unfolding check get_state current_time status_from_state
check-IsChecked p m =
    first (λ s. s ≡ m.state) (record { commits = (refl, refl) })
      (λ s m₁ at same.
        check_first (is_idle s.task ≡ true) (reject_active_task-Atomic s.task at) (λ m₂ at idle.
          first (λ current. Unit {0}) (ask-Atomic inspect_web p.inspected at)
            (λ current m₃ at u.
              first (λ target. Unit {0}) (ask-Atomic resolve_stable p.stable at)
                (λ target m₄ at u.
                  check_first (text_eq current.repository target.repository ≡ true)
                    (require_matching_repositories-Atomic current target at)
                    (λ m₅ at one.
                      first (λ available. is_newer target.version current.version ≡ some available)
                        (or_invalid-Atomic _ at)
                        (λ available m₆ at compared.
                          first (λ now. Unit {0}) (ask-Atomic clock _ at)
                            (λ now m₇ at u. save_then _ _ (record {
                              c = record {
                                current = current;
                                target = target;
                                available = available;
                                checked_at = now;
                              };
                              saved = refl;
                              kept = ap (λ s. s.task) same;
                              idle = ap (λ s. is_idle s.task) (sym same) ∙ idle;
                              one_repository = one;
                              compared = compared;
                              shown =
                                  ap
                                    (λ s.
                                      checked_view
                                        (record {
                                          current = current;
                                          target = target;
                                          available = available;
                                          checked_at = now;
                                        })
                                        s.task)
                                    same;
                            }))))))))

-- What `start` has checked before it stores a task: a check that found an update to the version asked
-- for, made less than two minutes before a moment of the clock, of two images of one repository.
pub record IsFresh (before : PersistentState) (target_version : Text) (c : CheckResult)
    : Type 0 where
  pub saved : before.last_check ≡ some c
  pub asked : text_eq target_version c.target.version ≡ true
  pub available : c.available ≡ true
  pub moment : ℕ
  pub not_before : c.checked_at ≤ moment
  pub in_time : moment < c.checked_at + check_max_age
  pub one_repository : text_eq c.current.repository c.target.repository ≡ true

check_age-IsFresh :
    (p : Platform) (s : PersistentState) (target_version : Text) (c : CheckResult) (m : Machine)
    → m.state ≡ s
    → s.last_check ≡ some c
    → text_eq target_version c.target.version ≡ true
    → c.available ≡ true
    → Atomic s (λ c now. (now ≡ s) × IsFresh s target_version c) (check_age p c) m
unfolding check_age current_time
check_age-IsFresh p s target_version c m at saved asked available =
    first (λ now. Unit {0}) (ask-Atomic clock _ at)
      (λ now m₁ at u. check_first _ (raise_if-Atomic _ stale_check at) (λ m₂ at young.
        check_first _ (require_matching_repositories-Atomic c.current c.target at) (λ m₃ at one.
          returns c (
            at,
            record {
              saved = saved;
              asked = asked;
              available = available;
              moment = now;
              not_before = ground arith;
              in_time = ground arith;
              one_repository = one;
            },
          ))))

fresh_check-IsFresh :
    (p : Platform) (s : PersistentState) (target_version : Text) (checked : Option CheckResult)
    (m : Machine)
    → m.state ≡ s
    → s.last_check ≡ checked
    → Atomic s
        (λ c now. (now ≡ s) × IsFresh s target_version c)
        (fresh_check p checked target_version)
        m
unfolding fresh_check
fresh_check-IsFresh p s target_version none m at saved = raises stale_check at
fresh_check-IsFresh p s target_version (some c) m at saved =
    check_first _ (raise_if-Atomic _ target_mismatch at) (λ m₁ at asked.
      check_first _ (raise_if-Atomic _ no_update at) (λ m₂ at available.
        check_age-IsFresh p s target_version c m₂ at saved (ground arith) (ground arith)))

pub require_fresh_check-IsFresh :
    (p : Platform) (s : PersistentState) (target_version : Text) (m : Machine)
    → m.state ≡ s
    → Atomic s
        (λ c now. (now ≡ s) × IsFresh s target_version c)
        (require_fresh_check p s.last_check target_version)
        m
unfolding require_fresh_check
require_fresh_check-IsFresh p s target_version m at =
    first (λ key. version_key target_version ≡ some key) (or_invalid-Atomic _ at)
      (λ key m₁ at valid. fresh_check-IsFresh p s target_version s.last_check m₁ at refl)
