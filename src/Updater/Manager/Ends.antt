-- ===== src/Updater/Manager/Ends.antt =====
-- However the platform answers, `execute` ends its task.
use finance_reconciliation.Prelude.{ℕ, ◌≡◌, refl, true, false, some}
use finance_reconciliation.Prelude.Text.{Text}
use finance_reconciliation.Prelude.Outcome.{Outcome, ok, err}
use finance_reconciliation.Updater.Types.{
  backing_up, pulling, stopping_web, migrating, starting_web, checking_health, persisting_version,
  cleaning, UpdateTask,
}
use finance_reconciliation.Updater.Machine.{
  create_backup, stop_web, verify_target, migrate_target, start_target, tag_rollback,
  persist_version, Platform, Machine, ◌>>=◌, ◌>>◌, ask, perform,
}
use finance_reconciliation.Updater.Logic.{
  Post, after, next, attempt-either, ask-Post, return-Post, returned,
}
use finance_reconciliation.Updater.Manager.Tasks.{load_task, checkpoint, save_task}
use finance_reconciliation.Updater.Manager.Execute.{
  is_checking, wait_for_health, stabilize, with_alias, prepare, replace_web, finish_update, go_on,
  safe_error_code, require_ready_task, execute, max_attempts,
}
use finance_reconciliation.Updater.Manager.Holds.{
  is_ordered_if_any, has_stopped, Holds, Ended, Cleaned, load, save, saved-Holds, called-Holds,
  perform-Holds,
}
use finance_reconciliation.Updater.Manager.Steps.{
  record_backups-Holds, checkpoint-Holds, commit_success-Ended,
}
use finance_reconciliation.Updater.Manager.Journal.{cleanup_original-Holds}
use finance_reconciliation.Updater.Manager.Rollbacks.{
  Kept, loud, wait_for_health-Kept, stabilize-Kept, handle_failure-Ended,
}

module _ (p : Platform) {id : ℕ} where
  -- What `prepare` does in the stage `PULLING`.
  pull-Kept :
      {m : Machine}
      → Holds true id m
      → Kept true id
          (load_task id >>= (λ t.
            perform p (verify_target t.target)
            >> (checkpoint p id pulling
                >> (load_task id >>= (λ pulled.
                    ask (tag_rollback pulled) (p.tagged pulled) >>= (λ alias.
                      save_task (with_alias alias pulled) >> checkpoint p id stopping_web))))))
          m
  pull-Kept h = load _ id h.t h.stored h.same (
      next (Holds true id) (perform-Holds p (verify_target h.t.target) refl h) (λ m h.
        next (Holds true id) (checkpoint-Holds p pulling h) (λ m h. load _ id h.t h.stored h.same (
          after (λ alias. Holds true id)
            (ask-Post (tag_rollback h.t) _ (λ alias. called-Holds (tag_rollback h.t) refl h)
              (called-Holds (tag_rollback h.t) refl h))
            (λ alias m k.
              next (Holds true id) (save _ (saved-Holds _ k h.same h.ordered))
                (λ m h. checkpoint-Holds p stopping_web h))))))

  prepare-Kept : {m : Machine} → Holds true id m → Kept true id (prepare p id) m
  unfolding prepare
  prepare-Kept h = next (Holds true id) (checkpoint-Holds p backing_up h) (λ m h.
      after (λ backups. Holds true id)
        (ask-Post create_backup _ (λ backups. called-Holds create_backup refl h)
          (called-Holds create_backup refl h))
        (λ backups m h.
          next (Holds true id) (record_backups-Holds backups h)
            (λ m h. next (Holds true id) (checkpoint-Holds p pulling h) (λ m h. pull-Kept h))))

  -- What `replace_web` does from the start of the target on.
  start-Kept :
      {m : Machine}
      → Holds false id m
      → Kept false id
          (load_task id >>= (λ migrated.
            perform p (start_target migrated.target)
            >> (checkpoint p id checking_health
                >> (load_task id >>= (λ begun.
                    wait_for_health p begun.target max_attempts
                    >> (stabilize p id
                        >> (checkpoint p id persisting_version
                            >> (load_task id >>= (λ stable.
                                perform p (persist_version stable.target.version))))))))))
          m
  start-Kept h = load _ id h.t h.stored h.same (
      next (Holds false id) (perform-Holds p (start_target h.t.target) refl h) (λ m h.
        next (Holds false id) (checkpoint-Holds p checking_health h) (λ m h.
          load _ id h.t h.stored h.same (
            next (Holds false id) (wait_for_health-Kept p h.t.target max_attempts h) (λ m h.
              next (Holds false id) (stabilize-Kept p h) (λ m h.
                next (Holds false id) (checkpoint-Holds p persisting_version h) (λ m h.
                  load _ id h.t h.stored h.same
                    (perform-Holds p (persist_version h.t.target.version) refl h))))))))

  replace_web-Kept : {m : Machine} → Holds false id m → Kept false id (replace_web p id) m
  unfolding replace_web
  replace_web-Kept h = next (Holds false id) (perform-Holds p stop_web refl h) (λ m h.
      next (Holds false id) (checkpoint-Holds p migrating h) (λ m h. load _ id h.t h.stored h.same (
        next (Holds false id) (perform-Holds p (migrate_target h.t.target) refl h) (λ m h.
          next (Holds false id) (checkpoint-Holds p starting_web h) (λ m h. start-Kept h)))))

  finish_update-Ended :
      {E : Machine → Type 0} {m : Machine} (result : Outcome Text (Unit {0}))
      → Holds false id m
      → Post (λ done. Ended id) E (finish_update p id result) m
  unfolding finish_update
  finish_update-Ended (err code) h = handle_failure-Ended p (safe_error_code code) true (λ no. cc) h
  finish_update-Ended (ok done) h = next (Holds false id) (checkpoint-Holds p cleaning h) (λ m h.
      after (Cleaned false id) (cleanup_original-Holds p h)
        (λ cleaned m h. commit_success-Ended p cleaned h))

  go_on-Ended :
      {E : Machine → Type 0} {m : Machine} (result : Outcome Text (Unit {0}))
      → Holds true id m
      → Post (λ done. Ended id) E (go_on p id result) m
  unfolding go_on
  go_on-Ended (err code) h = handle_failure-Ended p (safe_error_code code) false (λ same. refl) h
  go_on-Ended (ok done) h =
      after (λ result. Holds false id) (attempt-either (replace_web-Kept (loud h)))
        (λ result m h. finish_update-Ended result h)

  require_ready_task-Holds :
      {E : Machine → Type 0} {m : Machine} (h : Holds true id m)
      → is_checking h.t.stage ≡ true
      → Post (λ done. Holds true id) E (require_ready_task id) m
  unfolding require_ready_task
  require_ready_task-Holds h ready = load _ id h.t h.stored h.same (rw ready (return-Post tt h))

  execute-Ended :
      {E : Machine → Type 0} {m : Machine} (h : Holds true id m)
      → is_checking h.t.stage ≡ true
      → Post (λ done. Ended id) E (execute p id) m
  unfolding execute
  execute-Ended h ready = next (Holds true id) (require_ready_task-Holds h ready) (λ m h.
      after (λ result. Holds true id) (attempt-either (prepare-Kept h))
        (λ result m h. go_on-Ended result h))

-- Whatever the platform answers, `execute` of a stored task in the stage `CHECKING`, with an ordered
-- journal and before anything has been stopped, returns and raises nothing. It leaves that task in a
-- terminal stage. Where the stage is `FAILED` and `rolled_back` is not set, the web application was
-- never stopped; where it is `SUCCEEDED`, the saved check has the target as the current image and no
-- update, and a cleanup that is `COMPLETE` has a complete journal.
pub execute-ends :
    (p : Platform) (m : Machine) (t : UpdateTask)
    → m.state.task ≡ some t
    → is_checking t.stage ≡ true
    → is_ordered_if_any t.cleanup_journal ≡ true
    → has_stopped m.calls ≡ false
    → (m' : Machine) × (execute p t.id m ≡ (m', ok tt)) × Ended t.id m'
execute-ends p m t stored ready ordered silent = returned (
    execute-Ended p
      (record { t = t; stored = stored; same = refl; ordered = ordered; silent = λ quiet. silent })
      ready)
