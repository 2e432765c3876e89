-- ===== src/Updater/Manager/Steps.antt =====
-- The checkpoints keep the task, and the methods that finish it end it.
use finance_reconciliation.Prelude.{ℕ, ◌≡◌, refl, if◌then◌else◌, Bool, true, false}
use finance_reconciliation.Prelude.Text.{Text}
use finance_reconciliation.Updater.Types.{Stage, complete, pending}
use finance_reconciliation.Updater.Machine.{Platform, Machine, save_state}
use finance_reconciliation.Updater.Logic.{Post, after}
use finance_reconciliation.Updater.Manager.Tasks.{
  checkpoint, finish_failed, finish_manual, commit_success, record_backups,
}
use finance_reconciliation.Updater.Manager.Holds.{
  Holds, Ended, Cleaned, load, save, saved-Holds, current_time-Holds, start_time-Holds,
}

pub record_backups-Holds :
    {E : Machine → Type 0} {quiet : Bool} {id : ℕ} {m : Machine} (backups : Text × Text)
    → Holds quiet id m
    → Post (λ done. Holds quiet id) E (record_backups id backups) m
unfolding record_backups
record_backups-Holds (database_backup, uploads_backup) h =
    load _ _ h.t h.stored h.same (save _ (saved-Holds _ h h.same h.ordered))

completed_if :
    (cleaned : Bool) → (if cleaned then complete else pending) ≡ complete → cleaned ≡ true
completed_if true h = refl
completed_if false h = cc

module _ (p : Platform) {E : Machine → Type 0} {quiet : Bool} {id : ℕ} {m : Machine} where
  pub checkpoint-Holds :
      (stage : Stage) → Holds quiet id m → Post (λ done. Holds quiet id) E (checkpoint p id stage) m
  unfolding checkpoint
  checkpoint-Holds stage h = load _ id h.t h.stored h.same (
      after (λ time. Holds quiet id) (start_time-Holds p h.t.started_at h)
        (λ time m now. save _ (saved-Holds _ now h.same h.ordered)))

  pub finish_failed-Ended :
      (code : Text) (rolled_back : Bool)
      → (rolled_back ≡ false → quiet ≡ true)
      → Holds quiet id m
      → Post (λ done. Ended id) E (finish_failed p id code rolled_back) m
  unfolding finish_failed
  finish_failed-Ended code rolled_back only h = load _ id h.t h.stored h.same (
      after (λ time. Holds quiet id) (current_time-Holds p h)
        (λ time m now. save _ (record {
          t = _;
          stored = refl;
          same = h.same;
          terminal = refl;
          honest = λ ended kept. now.silent (only kept);
          cleaned = λ ended. cc;
          checked = λ ended. cc;
        })))

  pub finish_manual-Ended : Holds quiet id m → Post (λ done. Ended id) E (finish_manual p id) m
  unfolding finish_manual
  finish_manual-Ended h = load _ id h.t h.stored h.same (
      after (λ time. Holds quiet id) (current_time-Holds p h)
        (λ time m now. save _ (record {
          t = _;
          stored = refl;
          same = h.same;
          terminal = refl;
          honest = λ ended. cc;
          cleaned = λ ended. cc;
          checked = λ ended. cc;
        })))

  pub commit_success-Ended :
      (cleaned : Bool)
      → Cleaned quiet id cleaned m
      → Post (λ done. Ended id) E (commit_success p id cleaned) m
  unfolding commit_success save_state
  commit_success-Ended cleaned (h, complete_journal) = load _ id h.t h.stored h.same (
      after (λ time. Holds quiet id) (current_time-Holds p h)
        (λ time m first.
          after (λ time. Holds quiet id) (current_time-Holds p first)
            (λ time m second. record {
              meets = record {
                t = _;
                stored = refl;
                same = h.same;
                terminal = refl;
                honest = λ ended. cc;
                cleaned = λ ended is_complete. complete_journal (completed_if cleaned is_complete);
                checked = λ ended. (_, refl, refl, refl);
              };
            })))
