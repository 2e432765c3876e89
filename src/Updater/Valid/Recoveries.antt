-- ===== src/Updater/Valid/Recoveries.antt =====
-- `recover` of updater/manager.py, from a valid state.
use finance_reconciliation.Prelude.{ℕ, Bool, true, false, not, ◌&&◌, ◌||◌, Option, none, some}
use finance_reconciliation.Prelude.Text.{Text, is_empty}
use finance_reconciliation.Prelude.Outcome.{Outcome, ok, err}
use finance_reconciliation.Updater.Types.{Stage, cleaning, ImageIdentity, UpdateTask}
use finance_reconciliation.Updater.Machine.{health, inspect_web, Platform}
use finance_reconciliation.Updater.Manager.Cleanup.{has_journal}
use finance_reconciliation.Updater.Manager.Execute.{is_persisting_version}
use finance_reconciliation.Updater.Manager.Phases.{
  Phase, before_tag, between, completing, ending, phase, is_terminal, is_cleaning,
  has_complete_image_identity, has_complete_recovery_identities, same_runtime_identity,
  update_failed,
}
use finance_reconciliation.Updater.Manager.Recover.{
  confirm_target, finish_recovered, complete_target_task, complete_recovered_target,
  finish_before_tag, fail_before_tag, recover_original, recover_phase, recover_from, recover_task,
  recover,
}
use finance_reconciliation.Updater.Valid.Rules.{
  Gives, Any, value_unused, return-Gives, if-Gives, and-Gives, next-Gives, attempt-Gives, ask-Gives,
  get_state-Gives, perform-Gives,
}
use finance_reconciliation.Updater.Valid.Cleans.{
  with_task-Gives, checkpoint-Gives, finish_failed-Gives, finish_manual-Gives, commit_success-Gives,
  cleanup_original-Gives,
}
use finance_reconciliation.Updater.Valid.Updates.{then_checkpoint, rollback_to_original-Gives}

module _ (p : Platform) where
  confirm_target-Gives :
      (id : ℕ) (stage : Stage) (persist : Bool) → Gives Any (confirm_target p id stage persist)
  unfolding confirm_target
  confirm_target-Gives id stage persist = then_checkpoint p id stage (
      with_task-Gives id λ t h. next-Gives (perform-Gives p (health t.target)) (
        if-Gives persist (λ so. then_checkpoint p id t.stage (perform-Gives p _))
          (λ no. return-Gives tt tt)))

  finish_recovered-Gives :
      (id : ℕ) (persist : Bool) (result : Outcome Text (Unit {0}))
      → Gives Any (finish_recovered p id persist result)
  unfolding finish_recovered
  finish_recovered-Gives id persist (err code) =
      rollback_to_original-Gives p id update_failed true true
  finish_recovered-Gives id persist (ok done) =
      next-Gives
        (if-Gives {Q = Any} persist (λ so. checkpoint-Gives p id cleaning)
          (λ no. return-Gives tt tt))
        (and-Gives (cleanup_original-Gives p id) (λ cleaned any. commit_success-Gives p id cleaned))

  complete_recovered_target-Gives : (id : ℕ) → Gives Any (complete_recovered_target p id)
  unfolding complete_recovered_target complete_target_task
  complete_recovered_target-Gives id = with_task-Gives id λ t h.
      if-Gives (is_cleaning t.stage && not (has_journal t.cleanup_journal))
        (λ no_journal. finish_manual-Gives p id)
        (λ other.
          and-Gives
            (attempt-Gives (confirm_target-Gives id t.stage (is_persisting_version t.stage)))
            (λ result any. finish_recovered-Gives id (is_persisting_version t.stage) result))

  finish_before_tag-Gives :
      (id : ℕ) (result : Outcome Text (Unit {0})) → Gives Any (finish_before_tag p id result)
  unfolding finish_before_tag
  finish_before_tag-Gives id (err code) = finish_manual-Gives p id
  finish_before_tag-Gives id (ok done) = finish_failed-Gives p id update_failed false

  fail_before_tag-Gives : (id : ℕ) (stage : Stage) → Gives Any (fail_before_tag p id stage)
  unfolding fail_before_tag
  fail_before_tag-Gives id stage = then_checkpoint p id stage (
      with_task-Gives id λ t h.
        and-Gives (attempt-Gives (perform-Gives p (health t.original)))
          (λ result any. finish_before_tag-Gives id result))

  recover_original-Gives : (t : UpdateTask) → Gives Any (recover_original p t)
  unfolding recover_original
  recover_original-Gives t =
      if-Gives (is_empty t.original.rollback_alias) (λ no_alias. finish_manual-Gives p t.id)
        (λ other. rollback_to_original-Gives p t.id update_failed _ true)

  recover_phase-Gives :
      (t : UpdateTask) (is_target : Bool) (stage : Phase)
      → Gives Any (recover_phase p t is_target stage)
  unfolding recover_phase
  recover_phase-Gives t true before_tag = finish_manual-Gives p t.id
  recover_phase-Gives t false before_tag = fail_before_tag-Gives t.id t.stage
  recover_phase-Gives t true completing = complete_recovered_target-Gives t.id
  recover_phase-Gives t false completing = recover_original-Gives t
  recover_phase-Gives t is_target between = recover_original-Gives t
  recover_phase-Gives t is_target ending = recover_original-Gives t

  recover_from-Gives :
      (t : UpdateTask) (running : Outcome Text ImageIdentity) → Gives Any (recover_from p t running)
  unfolding recover_from
  recover_from-Gives t (err code) = finish_manual-Gives p t.id
  recover_from-Gives t (ok actual) =
      let is_original = same_runtime_identity actual t.original in
      let is_target = same_runtime_identity actual t.target in
      if-Gives (not (has_complete_image_identity actual)) (λ incomplete. finish_manual-Gives p t.id)
        (λ known.
          if-Gives (is_original && is_target || not is_original && not is_target)
            (λ unclear. finish_manual-Gives p t.id)
            (λ clear. recover_phase-Gives t is_target (phase t.stage)))

  recover_task-Gives : (task : Option UpdateTask) → Gives Any (recover_task p task)
  unfolding recover_task
  recover_task-Gives none = return-Gives tt tt
  recover_task-Gives (some t) =
      if-Gives (is_terminal t.stage) (λ ended. return-Gives tt tt)
        (λ running.
          if-Gives (not (has_complete_recovery_identities t))
            (λ incomplete. finish_manual-Gives p t.id)
            (λ known.
              and-Gives
                (attempt-Gives
                  (ask-Gives inspect_web p.inspected (λ calls. value_unused (p.inspected calls))))
                (λ result any. recover_from-Gives t result)))

  pub recover-Gives : Gives Any (recover p)
  unfolding recover
  recover-Gives = and-Gives get_state-Gives (λ s valid. recover_task-Gives s.task)
