-- ===== src/Updater/Valid/Updates.antt =====
-- `_execute` of updater/manager.py, with its rollback, from a valid state.
use finance_reconciliation.Prelude.{ℕ, zero, suc, Bool, true, false, if◌then◌else◌}
use finance_reconciliation.Prelude.Text.{Text}
use finance_reconciliation.Prelude.Outcome.{Outcome, ok, err}
use finance_reconciliation.Updater.Types.{
  Stage, backing_up, pulling, stopping_web, migrating, starting_web, checking_health, stabilizing,
  persisting_version, cleaning, rolling_back, ImageIdentity,
}
use finance_reconciliation.Updater.Machine.{
  create_backup, stop_web, verify_target, migrate_target, start_target, health, tag_rollback,
  start_rollback, Call, Platform, Run, ◌>>◌, perform,
}
use finance_reconciliation.Updater.Manager.Tasks.{checkpoint}
use finance_reconciliation.Updater.Manager.Execute.{
  is_checking, is_persisting_version, raise_again, safe_error_code, require_ready_task,
  max_attempts, retry_seconds, pause, retry_health, wait_for_health, stabilize_rounds, stabilize,
  restore_original, finish_rollback, rollback_to_original, handle_failure, prepare, replace_web,
  finish_update, go_on, execute,
}
use finance_reconciliation.Updater.Valid.Rules.{
  Gives, Any, value_unused, return-Gives, raise-Gives, if-Gives, and-Gives, next-Gives,
  attempt-Gives, ask-Gives, perform-Gives,
}
use finance_reconciliation.Updater.Valid.Cleans.{
  with_task-Gives, save_task-Gives, record_backups-Gives, checkpoint-Gives, finish_failed-Gives,
  finish_manual-Gives, commit_success-Gives, cleanup_original-Gives,
}

module _ (p : Platform) where
  -- A checkpoint, and then the rest.
  pub then_checkpoint :
      {A : Type 0} {Q : A → Type 0} (id : ℕ) (stage : Stage) {rest : Run A}
      → Gives Q rest
      → Gives Q (checkpoint p id stage >> rest)
  then_checkpoint id stage h = next-Gives (checkpoint-Gives p id stage) h

  then_perform :
      {A : Type 0} {Q : A → Type 0} (call : Call) {rest : Run A}
      → Gives Q rest
      → Gives Q (perform p call >> rest)
  then_perform call h = next-Gives (perform-Gives p call) h

  pause-Gives : (seconds : ℕ) → Gives Any (pause p seconds)
  unfolding pause
  pause-Gives seconds = ask-Gives _ _ (λ calls. tt)

  raise_again-Gives : (code : Text) → Gives Any (raise_again code)
  unfolding raise_again
  raise_again-Gives code = record { gives = λ m valid. valid }

  retry_health-Gives :
      (left : ℕ) (again : Run (Unit {0})) (result : Outcome Text (Unit {0}))
      → Gives Any again
      → Gives Any (retry_health p left again result)
  unfolding retry_health
  retry_health-Gives left again (ok done) h = return-Gives tt tt
  retry_health-Gives zero again (err code) h = raise_again-Gives code
  retry_health-Gives (suc left) again (err code) h = h

  wait_for_health-Gives :
      (expected : ImageIdentity) (left : ℕ) → Gives Any (wait_for_health p expected left)
  unfolding wait_for_health
  wait_for_health-Gives expected zero = return-Gives tt tt
  wait_for_health-Gives expected (suc left) =
      and-Gives (attempt-Gives (perform-Gives p (health expected))) λ result any.
        retry_health-Gives left _ result
          (next-Gives (pause-Gives retry_seconds) (wait_for_health-Gives expected left))

  stabilize_rounds-Gives : (id left : ℕ) → Gives Any (stabilize_rounds p id left)
  unfolding stabilize_rounds
  stabilize_rounds-Gives id zero = return-Gives tt tt
  stabilize_rounds-Gives id (suc left) = next-Gives (pause-Gives 5) (
      then_checkpoint id stabilizing
        (with_task-Gives id λ t h. then_perform (health t.target) (stabilize_rounds-Gives id left)))

  restore_original-Gives :
      (id : ℕ) (stage : Stage) (restore_version : Bool)
      → Gives Any (restore_original p id stage restore_version)
  unfolding restore_original
  restore_original-Gives id stage restore_version = with_task-Gives id λ t h.
      then_perform (start_rollback t) (
        then_checkpoint id stage (
          next-Gives (wait_for_health-Gives t.original max_attempts) (
            if-Gives restore_version (λ so. then_checkpoint id stage (perform-Gives p _))
              (λ no. return-Gives tt tt))))

  finish_rollback-Gives :
      (id : ℕ) (code : Text) (result : Outcome Text (Unit {0}))
      → Gives Any (finish_rollback p id code result)
  unfolding finish_rollback
  finish_rollback-Gives id code (err again) = finish_manual-Gives p id
  finish_rollback-Gives id code (ok done) = finish_failed-Gives p id code true

  pub rollback_to_original-Gives :
      (id : ℕ) (code : Text) (restore_version preserve_stage : Bool)
      → Gives Any (rollback_to_original p id code restore_version preserve_stage)
  unfolding rollback_to_original
  rollback_to_original-Gives id code restore_version preserve_stage = with_task-Gives id λ t h.
      let stage = if preserve_stage then t.stage else rolling_back in
      next-Gives (save_task-Gives _ h) (
        and-Gives (attempt-Gives (restore_original-Gives id stage restore_version))
          (λ result any. finish_rollback-Gives id code result))

  handle_failure-Gives :
      (id : ℕ) (code : Text) (stopped : Bool) → Gives Any (handle_failure p id code stopped)
  unfolding handle_failure
  handle_failure-Gives id code false = finish_failed-Gives p id code false
  handle_failure-Gives id code true =
      with_task-Gives id
        (λ t h. rollback_to_original-Gives id code (is_persisting_version t.stage) false)

  prepare-Gives : (id : ℕ) → Gives Any (prepare p id)
  unfolding prepare
  prepare-Gives id = then_checkpoint id backing_up (
      and-Gives (ask-Gives create_backup p.backups (λ calls. value_unused (p.backups calls)))
        λ backups any. next-Gives (record_backups-Gives id backups) (
          then_checkpoint id pulling (
            with_task-Gives id λ t h. then_perform (verify_target t.target) (
              then_checkpoint id pulling (
                with_task-Gives id λ pulled k.
                  and-Gives
                    (ask-Gives (tag_rollback pulled) (p.tagged pulled)
                      (λ calls. value_unused (p.tagged pulled calls)))
                    (λ alias any.
                      next-Gives (save_task-Gives _ k) (checkpoint-Gives p id stopping_web)))))))

  replace_web-Gives : (id : ℕ) → Gives Any (replace_web p id)
  unfolding replace_web stabilize
  replace_web-Gives id = then_perform stop_web (
      then_checkpoint id migrating (
        with_task-Gives id λ t h. then_perform (migrate_target t.target) (
          then_checkpoint id starting_web (
            with_task-Gives id λ migrated h. then_perform (start_target migrated.target) (
              then_checkpoint id checking_health (
                with_task-Gives id λ begun h.
                  next-Gives (wait_for_health-Gives begun.target max_attempts) (
                    next-Gives (then_checkpoint id stabilizing (stabilize_rounds-Gives id 3)) (
                      then_checkpoint id persisting_version
                        (with_task-Gives id (λ stable h. perform-Gives p _))))))))))

  finish_update-Gives :
      (id : ℕ) (result : Outcome Text (Unit {0})) → Gives Any (finish_update p id result)
  unfolding finish_update
  finish_update-Gives id (err code) = handle_failure-Gives id (safe_error_code code) true
  finish_update-Gives id (ok done) =
      then_checkpoint id cleaning
        (and-Gives (cleanup_original-Gives p id) (λ cleaned any. commit_success-Gives p id cleaned))

  go_on-Gives : (id : ℕ) (result : Outcome Text (Unit {0})) → Gives Any (go_on p id result)
  unfolding go_on
  go_on-Gives id (err code) = handle_failure-Gives id (safe_error_code code) false
  go_on-Gives id (ok done) =
      and-Gives (attempt-Gives (replace_web-Gives id)) (λ result any. finish_update-Gives id result)

  pub execute-Gives : (id : ℕ) → Gives Any (execute p id)
  unfolding execute require_ready_task
  execute-Gives id =
      next-Gives
        (with_task-Gives id λ t h.
          if-Gives {Q = Any} (is_checking t.stage) (λ ready. return-Gives tt tt)
            (λ other. raise-Gives _))
        (and-Gives (attempt-Gives (prepare-Gives id)) (λ result any. go_on-Gives id result))
