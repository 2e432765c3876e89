-- ===== src/Updater/Manager/Recovers.antt =====
-- After a restart, `recover` ends the task that was running.
use finance_reconciliation.Prelude.{◌≡◌, refl, ap, ◌∙◌, Bool, true, false, not, ◌&&◌, some, ℕ}
use finance_reconciliation.Prelude.Text.{Text, is_empty}
use finance_reconciliation.Prelude.Outcome.{Outcome, ok, err}
use finance_reconciliation.Updater.Types.{Stage, cleaning, ImageIdentity, UpdateTask}
use finance_reconciliation.Updater.Machine.{
  inspect_web, health, persist_version, Platform, Machine, get_state,
}
use finance_reconciliation.Updater.Logic.{
  Post, after, next, attempt-either, ask-Post, return-Post, if-Post, returned,
}
use finance_reconciliation.Updater.Manager.Cleanup.{has_journal}
use finance_reconciliation.Updater.Manager.Execute.{is_persisting_version}
use finance_reconciliation.Updater.Manager.Phases.{
  Phase, before_tag, between, completing, ending, phase, is_terminal, is_cleaning,
  has_complete_image_identity, has_complete_recovery_identities, same_runtime_identity,
  update_failed,
}
use finance_reconciliation.Updater.Manager.Recover.{
  confirm_target, finish_recovered, complete_target_task, complete_recovered_target,
  finish_before_tag, fail_before_tag, recover_original, recover_phase, recover_from, recover_task,
  recover,
}
use finance_reconciliation.Updater.Manager.Holds.{
  is_ordered_if_any, has_stopped, Holds, Ended, Cleaned, load, called-Holds, perform-Holds,
}
use finance_reconciliation.Updater.Manager.Steps.{
  checkpoint-Holds, finish_failed-Ended, finish_manual-Ended, commit_success-Ended,
}
use finance_reconciliation.Updater.Manager.Journal.{cleanup_original-Holds}
use finance_reconciliation.Updater.Manager.Rollbacks.{rollback_to_original-Ended}

module _ (p : Platform) {id : ℕ} where
  confirm_target-Holds :
      {m : Machine} (stage : Stage) (persist : Bool)
      → Holds true id m
      → Post (λ done. Holds true id) (Holds true id) (confirm_target p id stage persist) m
  unfolding confirm_target
  confirm_target-Holds stage persist h = next (Holds true id) (checkpoint-Holds p stage h) (λ m h.
      load _ id h.t h.stored h.same (
        next (Holds true id) (perform-Holds p (health h.t.target) refl h) (λ m h'.
          if-Post persist
            (λ yes.
              next (Holds true id) (checkpoint-Holds p _ h')
                (λ m h'. perform-Holds p (persist_version h.t.target.version) refl h'))
            (λ no. return-Post tt h'))))

module _ (p : Platform) {E : Machine → Type 0} {id : ℕ} where
  finish_recovered-Ended :
      {m : Machine} (persist : Bool) (result : Outcome Text (Unit {0}))
      → Holds true id m
      → Post (λ done. Ended id) E (finish_recovered p id persist result) m
  unfolding finish_recovered
  finish_recovered-Ended persist (err code) h = rollback_to_original-Ended p _ true true h
  finish_recovered-Ended persist (ok done) h =
      next (Holds true id)
        (if-Post persist (λ yes. checkpoint-Holds p cleaning h) (λ no. return-Post tt h))
        (λ m h.
          after (Cleaned true id) (cleanup_original-Holds p h)
            (λ cleaned m h. commit_success-Ended p cleaned h))

  complete_target_task-Ended :
      {m : Machine} (t : UpdateTask)
      → Holds true id m
      → Post (λ done. Ended id) E (complete_target_task p id t) m
  unfolding complete_target_task
  complete_target_task-Ended t h =
      if-Post (is_cleaning t.stage && not (has_journal t.cleanup_journal))
        (λ yes. finish_manual-Ended p h)
        (λ no.
          after (λ result. Holds true id)
            (attempt-either (confirm_target-Holds p t.stage (is_persisting_version t.stage) h))
            (λ result m h. finish_recovered-Ended (is_persisting_version t.stage) result h))

  complete_recovered_target-Ended :
      {m : Machine} → Holds true id m → Post (λ done. Ended id) E (complete_recovered_target p id) m
  unfolding complete_recovered_target
  complete_recovered_target-Ended h =
      load _ id h.t h.stored h.same (complete_target_task-Ended h.t h)

  finish_before_tag-Ended :
      {m : Machine} (result : Outcome Text (Unit {0}))
      → Holds true id m
      → Post (λ done. Ended id) E (finish_before_tag p id result) m
  unfolding finish_before_tag
  finish_before_tag-Ended (err code) h = finish_manual-Ended p h
  finish_before_tag-Ended (ok done) h = finish_failed-Ended p update_failed false (λ same. refl) h

  fail_before_tag-Ended :
      {m : Machine} (stage : Stage)
      → Holds true id m
      → Post (λ done. Ended id) E (fail_before_tag p id stage) m
  unfolding fail_before_tag
  fail_before_tag-Ended stage h = next (Holds true id) (checkpoint-Holds p stage h) (λ m h.
      load _ id h.t h.stored h.same (
        after (λ result. Holds true id)
          (attempt-either (perform-Holds p (health h.t.original) refl h))
          (λ result m h. finish_before_tag-Ended result h)))

module _ (p : Platform) {E : Machine → Type 0} where
  recover_original-Ended :
      {m : Machine} (t : UpdateTask)
      → Holds true t.id m
      → Post (λ done. Ended t.id) E (recover_original p t) m
  unfolding recover_original
  recover_original-Ended t h =
      if-Post (is_empty t.original.rollback_alias) (λ yes. finish_manual-Ended p h)
        (λ no. rollback_to_original-Ended p update_failed _ true h)

  recover_phase-Ended :
      {m : Machine} (t : UpdateTask) (is_target : Bool) (at : Phase)
      → Holds true t.id m
      → Post (λ done. Ended t.id) E (recover_phase p t is_target at) m
  unfolding recover_phase
  recover_phase-Ended t is_target ending h = recover_original-Ended t h
  recover_phase-Ended t true completing h = complete_recovered_target-Ended p h
  recover_phase-Ended t false completing h = recover_original-Ended t h
  recover_phase-Ended t true before_tag h = finish_manual-Ended p h
  recover_phase-Ended t false before_tag h = fail_before_tag-Ended p t.stage h
  recover_phase-Ended t is_target between h = recover_original-Ended t h

  recover_from-Ended :
      {m : Machine} (t : UpdateTask) (result : Outcome Text ImageIdentity)
      → Holds true t.id m
      → Post (λ done. Ended t.id) E (recover_from p t result) m
  unfolding recover_from
  recover_from-Ended t (err code) h = finish_manual-Ended p h
  recover_from-Ended t (ok actual) h =
      if-Post (not (has_complete_image_identity actual)) (λ yes. finish_manual-Ended p h)
        (λ no.
          if-Post _ (λ yes. finish_manual-Ended p h)
            (λ no. recover_phase-Ended t (same_runtime_identity actual t.target) (phase t.stage) h))

  recover_task-Ended :
      {m : Machine} (t : UpdateTask)
      → is_terminal t.stage ≡ false
      → Holds true t.id m
      → Post (λ done. Ended t.id) E (recover_task p (some t)) m
  unfolding recover_task
  recover_task-Ended t running h = rw running (
      if-Post (not (has_complete_recovery_identities t)) (λ yes. finish_manual-Ended p h)
        (λ no.
          after (λ result. Holds true t.id)
            (attempt-either (
              ask-Post inspect_web p.inspected (λ actual. called-Holds inspect_web refl h)
                (called-Holds inspect_web refl h)))
            (λ result m h. recover_from-Ended t result h)))

-- Whatever the platform answers, `recover` of a stored task in a stage that is not terminal, with an
-- ordered journal and before anything has been stopped since the start, returns and raises nothing. It
-- leaves that task in a terminal stage. Where the stage is `FAILED` and `rolled_back` is not set, it has
-- not stopped the web application; where it is `SUCCEEDED`, the saved check has the target as the
-- current image and no update, and a cleanup that is `COMPLETE` has a complete journal.
pub recover-ends :
    (p : Platform) (m : Machine) (t : UpdateTask)
    → m.state.task ≡ some t
    → is_terminal t.stage ≡ false
    → is_ordered_if_any t.cleanup_journal ≡ true
    → has_stopped m.calls ≡ false
    → (m' : Machine) × (recover p m ≡ (m', ok tt)) × Ended t.id m'
unfolding recover get_state
recover-ends p m t stored running ordered silent = returned (
    after (λ s m'. (m' ≡ m) × (s ≡ m.state)) (record { meets = (refl, refl) })
      (λ s m' (same, e).
        let task = ap (λ s. s.task) e ∙ stored in
        rw task (
          recover_task-Ended p t running (record {
            t = t;
            stored = ap (λ m. m.state.task) same ∙ stored;
            same = refl;
            ordered = ordered;
            silent = λ quiet. ap (λ m. has_stopped m.calls) same ∙ silent;
          }))))
