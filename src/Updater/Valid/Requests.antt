-- ===== src/Updater/Valid/Requests.antt =====
-- `check`, `start` and `status` of updater/manager.py, from a valid state. The platform answers with
-- images that have a version: the class of an image takes no other (updater/types.py).
use finance_reconciliation.Prelude.{
  ℕ, ◌≡◌, refl, true, Option, none, some, List, and_both, and_left, and_right,
}
use finance_reconciliation.Prelude.Text.{Text, text_eq}
use finance_reconciliation.Updater.Types.{ImageIdentity, CheckResult, UpdateTask, PersistentState}
use finance_reconciliation.Updater.Versions.{version_key, is_newer}
use finance_reconciliation.Updater.Machine.{inspect_web, resolve_stable, Call, Platform}
use finance_reconciliation.Updater.Manager.Checks.{
  is_finished, reject_active_task, require_matching_repositories, or_invalid, status_from_state,
  check, check_age, fresh_check, require_fresh_check, start_again, matches_id, start_new,
  start_from, start, status_of_state, status,
}
use finance_reconciliation.Updater.State.RoundTrip.{is_image, is_check, is_valid}
use finance_reconciliation.Updater.Valid.Rules.{
  Gives, Any, WhereOk, value_unused, return-Gives, raise-Gives, raise_if-Gives, if-Gives, and-Gives,
  next-Gives, ask-Gives, get_state-Gives, save_state-Gives, current_time-Gives,
}
use finance_reconciliation.Updater.Valid.Cleans.{is_valid-task, is_valid-check}

-- What a platform that makes no invalid image answers.
pub record HasVersions (p : Platform) : Type 0 where
  pub inspected_image : (calls : List Call) → WhereOk (λ i. is_image i ≡ true) (p.inspected calls)
  pub stable_image : (calls : List Call) → WhereOk (λ i. is_image i ≡ true) (p.stable calls)

reject_active_task-Gives : (task : Option UpdateTask) → Gives Any (reject_active_task task)
unfolding reject_active_task
reject_active_task-Gives none = return-Gives tt tt
reject_active_task-Gives (some t) =
    if-Gives (is_finished t) (λ so. return-Gives tt tt) (λ active. raise-Gives _)

require_matching_repositories-Gives :
    (current target : ImageIdentity) → Gives Any (require_matching_repositories current target)
unfolding require_matching_repositories
require_matching_repositories-Gives current target =
    if-Gives (text_eq current.repository target.repository) (λ same. return-Gives tt tt)
      (λ other. raise-Gives _)

or_invalid-Gives : {A : Type 0} (o : Option A) → Gives Any (or_invalid o)
unfolding or_invalid
or_invalid-Gives (some a) = return-Gives a tt
or_invalid-Gives none = raise-Gives _

status_from_state-Gives :
    (checked : Option CheckResult) (task : Option UpdateTask)
    → Gives Any (status_from_state checked task)
unfolding status_from_state
status_from_state-Gives none task = raise-Gives _
status_from_state-Gives (some c) task = return-Gives _ tt

start_again-Gives :
    (target_version : Text) (t : UpdateTask) → Gives Any (start_again target_version t)
unfolding start_again
start_again-Gives target_version t =
    if-Gives (text_eq t.target.version target_version) (λ same. return-Gives _ tt)
      (λ other. raise-Gives _)

abbrev IsCheck : CheckResult → Type 0
IsCheck c = is_check (some c) ≡ true

module _ (p : Platform) where
  check_age-Gives : (c : CheckResult) → IsCheck c → Gives IsCheck (check_age p c)
  unfolding check_age
  check_age-Gives c h = and-Gives (current_time-Gives p) λ now any.
      next-Gives (raise_if-Gives _ _)
        (next-Gives (require_matching_repositories-Gives c.current c.target) (return-Gives c h))

  fresh_check-Gives :
      (checked : Option CheckResult) (target_version : Text)
      → is_check checked ≡ true
      → Gives IsCheck (fresh_check p checked target_version)
  unfolding fresh_check
  fresh_check-Gives none target_version h = raise-Gives _
  fresh_check-Gives (some c) target_version h =
      next-Gives (raise_if-Gives _ _) (next-Gives (raise_if-Gives _ _) (check_age-Gives c h))

  status_of_state-Gives :
      (checked : Option CheckResult) (task : Option UpdateTask)
      → Gives Any (status_of_state p checked task)
  unfolding status_of_state
  status_of_state-Gives (some c) task = status_from_state-Gives (some c) task
  status_of_state-Gives none task =
      and-Gives (ask-Gives inspect_web p.inspected (λ calls. value_unused (p.inspected calls)))
        (λ current any. return-Gives _ tt)

  pub status-Gives : Gives Any (status p)
  unfolding status
  status-Gives = and-Gives get_state-Gives (λ s valid. status_of_state-Gives s.last_check s.task)

  module _ (versions : HasVersions p) where
    pub check-Gives : Gives Any (check p)
    unfolding check is_valid
    check-Gives = and-Gives get_state-Gives λ s valid.
        next-Gives (reject_active_task-Gives s.task) (
          and-Gives (ask-Gives inspect_web p.inspected versions.inspected_image) λ current h.
            and-Gives (ask-Gives resolve_stable p.stable versions.stable_image) λ target k.
              next-Gives (require_matching_repositories-Gives current target) (
                and-Gives (or_invalid-Gives (is_newer target.version current.version))
                  λ available any. and-Gives (current_time-Gives p) λ now any.
                    next-Gives
                      (save_state-Gives _ (and_both _ _ (and_both _ _ h k) (is_valid-task s valid)))
                      (status_from_state-Gives _ s.task)))

    start_new-Gives :
        (target_version : Text) (task_id : Option ℕ) (fresh : ℕ) (s : PersistentState)
        → is_valid s ≡ true
        → Gives Any (start_new p target_version task_id fresh s)
    unfolding start_new require_fresh_check is_valid
    start_new-Gives target_version task_id fresh s valid =
        next-Gives (reject_active_task-Gives s.task) (
          and-Gives
            (and-Gives (or_invalid-Gives (version_key target_version))
              (λ key any. fresh_check-Gives s.last_check target_version (is_valid-check s valid)))
            λ checked h.
              and-Gives (ask-Gives resolve_stable p.stable versions.stable_image) λ resolved k.
                next-Gives (raise_if-Gives _ _) (
                  and-Gives (current_time-Gives p) λ now any.
                    let original : is_image checked.current ≡ true =
                      and_left (is_image checked.current) _ h in
                    let target : is_image checked.target ≡ true =
                      and_right (is_image checked.current) _ h in
                    next-Gives
                      (save_state-Gives _
                        (and_both _ _ h (and_both _ _ original (and_both _ _ target refl))))
                      (return-Gives _ tt)))

    start_from-Gives :
        (target_version : Text) (task_id : Option ℕ) (fresh : ℕ) (s : PersistentState)
        (task : Option UpdateTask)
        → is_valid s ≡ true
        → Gives Any (start_from p target_version task_id fresh s task)
    unfolding start_from
    start_from-Gives target_version task_id fresh s none valid =
        start_new-Gives target_version task_id fresh s valid
    start_from-Gives target_version task_id fresh s (some t) valid =
        if-Gives (matches_id task_id t) (λ same. start_again-Gives target_version t)
          (λ other. start_new-Gives target_version task_id fresh s valid)

    pub start-Gives :
        (target_version : Text) (task_id : Option ℕ) (fresh : ℕ)
        → Gives Any (start p target_version task_id fresh)
    unfolding start
    start-Gives target_version task_id fresh =
        and-Gives get_state-Gives
          (λ s valid. start_from-Gives target_version task_id fresh s s.task valid)
