-- ===== src/Updater/Manager/Rollbacks.antt =====
-- The waits for health keep the task, and a rollback ends it, however the platform answers.
use finance_reconciliation.Prelude.{ℕ, zero, suc, ◌≡◌, refl, Bool, true, false}
use finance_reconciliation.Prelude.Text.{Text}
use finance_reconciliation.Prelude.Outcome.{Outcome, ok, err}
use finance_reconciliation.Updater.Types.{Stage, stabilizing, ImageIdentity}
use finance_reconciliation.Updater.Machine.{
  health, start_rollback, persist_version, sleep, Platform, Machine, Run,
}
use finance_reconciliation.Updater.Logic.{
  Post, after, next, attempt-either, ask-Post, return-Post, if-Post,
}
use finance_reconciliation.Updater.Manager.Execute.{
  raise_again, retry_health, pause, wait_for_health, stabilize_rounds, stabilize, restore_original,
  finish_rollback, rollback_to_original, handle_failure, max_attempts, retry_seconds,
}
use finance_reconciliation.Updater.Manager.Holds.{
  Holds, Ended, load, save, saved-Holds, called-Holds, perform-Holds,
}
use finance_reconciliation.Updater.Manager.Steps.{
  checkpoint-Holds, finish_failed-Ended, finish_manual-Ended,
}

-- Once the application may be stopped, that is no longer tracked.
pub loud : {quiet : Bool} {id : ℕ} {m : Machine} → Holds quiet id m → Holds false id m
loud h = record {
  t = h.t;
  stored = h.stored;
  same = h.same;
  ordered = h.ordered;
  silent = λ no. cc;
}

-- A step keeps the task when each end of it does.
abbrev pub Kept : Bool → ℕ → Run (Unit {0}) → Machine → Type 0
Kept quiet id run m = Post (λ done. Holds quiet id) (Holds quiet id) run m

module _ (p : Platform) {id : ℕ} where
  pause-Kept :
      {quiet : Bool} {m : Machine} (seconds : ℕ)
      → Holds quiet id m
      → Kept quiet id (pause p seconds) m
  unfolding pause
  pause-Kept seconds h =
      ask-Post (sleep seconds) _ (λ done. called-Holds (sleep seconds) refl h)
        (called-Holds (sleep seconds) refl h)

  retry_health-Kept :
      {quiet : Bool} {m : Machine} (left : ℕ) (again : Run (Unit {0}))
      (result : Outcome Text (Unit {0}))
      → ((m : Machine) → Holds quiet id m → Kept quiet id again m)
      → Holds quiet id m
      → Kept quiet id (retry_health p left again result) m
  unfolding retry_health raise_again
  retry_health-Kept left again (ok done) k h = return-Post tt h
  retry_health-Kept zero again (err code) k h = record { meets = h }
  retry_health-Kept (suc left) again (err code) k h = k _ h

  pub wait_for_health-Kept :
      {quiet : Bool} {m : Machine} (expected : ImageIdentity) (left : ℕ)
      → Holds quiet id m
      → Kept quiet id (wait_for_health p expected left) m
  unfolding wait_for_health
  wait_for_health-Kept expected zero h = return-Post tt h
  wait_for_health-Kept {quiet = quiet} expected (suc left) h =
      after (λ result. Holds quiet id) (attempt-either (perform-Holds p (health expected) refl h))
        (λ result m held.
          retry_health-Kept left _ result
            (λ m h.
              next (Holds quiet id) (pause-Kept retry_seconds h)
                (λ m h. wait_for_health-Kept expected left h))
            held)

  stabilize_rounds-Kept :
      {quiet : Bool} {m : Machine} (left : ℕ)
      → Holds quiet id m
      → Kept quiet id (stabilize_rounds p id left) m
  unfolding stabilize_rounds
  stabilize_rounds-Kept zero h = return-Post tt h
  stabilize_rounds-Kept {quiet = quiet} (suc left) h =
      next (Holds quiet id) (pause-Kept 5 h) (λ m h.
        next (Holds quiet id) (checkpoint-Holds p stabilizing h) (λ m h.
          load _ id h.t h.stored h.same (
            next (Holds quiet id) (perform-Holds p (health h.t.target) refl h)
              (λ m h. stabilize_rounds-Kept left h))))

  pub stabilize-Kept :
      {quiet : Bool} {m : Machine} → Holds quiet id m → Kept quiet id (stabilize p id) m
  unfolding stabilize
  stabilize-Kept {quiet = quiet} h =
      next (Holds quiet id) (checkpoint-Holds p stabilizing h) (λ m h. stabilize_rounds-Kept 3 h)

  restore_original-Kept :
      {quiet : Bool} {m : Machine} (stage : Stage) (restore_version : Bool)
      → Holds quiet id m
      → Kept quiet id (restore_original p id stage restore_version) m
  unfolding restore_original
  restore_original-Kept {quiet = quiet} stage restore_version h = load _ id h.t h.stored h.same (
      next (Holds quiet id) (perform-Holds p (start_rollback h.t) refl h) (λ m h'.
        next (Holds quiet id) (checkpoint-Holds p stage h') (λ m h'.
          next (Holds quiet id) (wait_for_health-Kept h.t.original max_attempts h') (λ m h'.
            if-Post restore_version
              (λ yes.
                next (Holds quiet id) (checkpoint-Holds p stage h')
                  (λ m h'. perform-Holds p (persist_version h.t.original.version) refl h'))
              (λ no. return-Post tt h')))))

  finish_rollback-Ended :
      {E : Machine → Type 0} {quiet : Bool} {m : Machine} (code : Text)
      (result : Outcome Text (Unit {0}))
      → Holds quiet id m
      → Post (λ done. Ended id) E (finish_rollback p id code result) m
  unfolding finish_rollback
  finish_rollback-Ended code (err again) h = finish_manual-Ended p h
  finish_rollback-Ended code (ok done) h = finish_failed-Ended p code true (λ no. cc) h

  pub rollback_to_original-Ended :
      {E : Machine → Type 0} {quiet : Bool} {m : Machine} (code : Text)
      (restore_version preserve_stage : Bool)
      → Holds quiet id m
      → Post (λ done. Ended id) E (rollback_to_original p id code restore_version preserve_stage) m
  unfolding rollback_to_original
  rollback_to_original-Ended {quiet = quiet} code restore_version preserve_stage h =
      load _ id h.t h.stored h.same (
        next (Holds quiet id) (save _ (saved-Holds _ h h.same h.ordered)) (λ m h.
          after (λ result. Holds quiet id)
            (attempt-either (restore_original-Kept _ restore_version h))
            (λ result m h. finish_rollback-Ended code result h)))

  pub handle_failure-Ended :
      {E : Machine → Type 0} {quiet : Bool} {m : Machine} (code : Text) (was_stopped : Bool)
      → (was_stopped ≡ false → quiet ≡ true)
      → Holds quiet id m
      → Post (λ done. Ended id) E (handle_failure p id code was_stopped) m
  unfolding handle_failure
  handle_failure-Ended code false only h = finish_failed-Ended p code false (λ no. only refl) h
  handle_failure-Ended code true only h =
      load _ id h.t h.stored h.same (rollback_to_original-Ended code _ false h)
