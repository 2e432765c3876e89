-- ===== src/Updater/Manager/Order.antt =====
-- One step of `_cleanup_original` keeps the journal in order.
use finance_reconciliation.Prelude.{ℕ, ◌≡◌, refl, ap, Bool, true, false, Option, none, some, arith}
use finance_reconciliation.Prelude.Text.{Text}
use finance_reconciliation.Prelude.Outcome.{Outcome, ok, err}
use finance_reconciliation.Updater.Types.{
  CleanupStep, version_tag, rollback_alias, image_id, CleanupStepStatus, not_started, started,
  completed, CleanupJournal, is_started, is_completed, is_ordered, status_of, with_status,
  UpdateTask,
}
use finance_reconciliation.Updater.Machine.{cleanup_original_step, Machine, Run, ◌>>=◌, return}
use finance_reconciliation.Updater.Logic.{Post, next, return-Post, if-Post}
use finance_reconciliation.Updater.Manager.Cleanup.{
  replace_status, with_journal, confirm_journal, confirm_step,
}
use finance_reconciliation.Updater.Manager.Holds.{
  is_ordered_if_any, Holds, with_task, with_call, load, save, saved-Holds, called-Holds,
}

-- The step before is completed.
abbrev pub prior : CleanupStep → CleanupJournal → Bool
prior version_tag j = true
prior rollback_alias j = is_completed j.on_version_tag
prior image_id j = is_completed j.on_rollback_alias

abbrev pub done : CleanupStep → CleanupJournal → Bool
done step j = is_completed (status_of step j)

pub started-is_ordered :
    (step : CleanupStep) (j : CleanupJournal)
    → is_ordered j ≡ true
    → prior step j ≡ true
    → status_of step j ≡ not_started
    → is_ordered (with_status step started j) ≡ true
started-is_ordered version_tag j h before now = ground arith
started-is_ordered rollback_alias j h before now = ground arith
started-is_ordered image_id j h before now = ground arith

completed-is_ordered :
    (step : CleanupStep) (j : CleanupJournal)
    → is_ordered j ≡ true
    → prior step j ≡ true
    → is_started (status_of step j) ≡ true
    → is_ordered (with_status step completed j) ≡ true
completed-is_ordered version_tag j h before now = ground arith
completed-is_ordered rollback_alias j h before now = ground arith
completed-is_ordered image_id j h before now = ground arith

pub prior-with_status :
    (step : CleanupStep) (s : CleanupStepStatus) (j : CleanupJournal)
    → prior step j ≡ true
    → prior step (with_status step s j) ≡ true
prior-with_status version_tag s j h = refl
prior-with_status rollback_alias s j h = h
prior-with_status image_id s j h = h

done-with_status :
    (step : CleanupStep) (j : CleanupJournal) → done step (with_status step completed j) ≡ true
done-with_status version_tag j = refl
done-with_status rollback_alias j = refl
done-with_status image_id j = refl

abbrev pub passes : (CleanupJournal → Bool) → Option CleanupJournal → Bool
passes P none = false
passes P (some j) = P j

-- The stored task has a journal that passes a test.
pub record Keeps (P : CleanupJournal → Bool) (quiet : Bool) (id : ℕ) (m : Machine) : Type 0 where
  pub holds : Holds quiet id m
  pub fits : passes P holds.t.cleanup_journal ≡ true

module _ {quiet : Bool} {id : ℕ} {m : Machine} where
  pub with_journal-Keeps :
      (P : CleanupJournal → Bool) (h : Holds quiet id m) (j : CleanupJournal)
      → is_ordered j ≡ true
      → P j ≡ true
      → Keeps P quiet id (with_task (with_journal j h.t) m)
  with_journal-Keeps P h j ordered fits = record {
    holds = saved-Holds _ h h.same ordered;
    fits = fits;
  }

  pub call-Keeps :
      {P : CleanupJournal → Bool} (t : UpdateTask) (step : CleanupStep)
      → Keeps P quiet id m
      → Keeps P quiet id (with_call (cleanup_original_step t step) m)
  call-Keeps t step k = record {
    holds = called-Holds (cleanup_original_step t step) refl k.holds;
    fits = k.fits;
  }

-- What a turn of the loop leads to.
abbrev pub After : CleanupStep → Bool → ℕ → Bool → Machine → Type 0
After step quiet id fine m =
    (h : Holds quiet id m) × (fine ≡ true → passes (done step) h.t.cleanup_journal ≡ true)

pub replaced :
    {B : Type 0} {Q : B → Machine → Type 0} {E : Machine → Type 0} {m : Machine}
    (rest : CleanupJournal → Run B) (step : CleanupStep) (status : CleanupStepStatus)
    (j : CleanupJournal)
    → is_ordered (with_status step status j) ≡ true
    → Post Q E (rest (with_status step status j)) m
    → Post Q E (replace_status step status j >>= rest) m
unfolding replace_status ◌>>=◌ return
replaced rest step status j ordered h = record { meets = simp ordered h.meets }

module _ {quiet : Bool} {id : ℕ} {m : Machine} where
  confirm_journal-After :
      {E : Machine → Type 0} (step : CleanupStep) (h : Holds quiet id m) (o : Option CleanupJournal)
      → is_ordered_if_any o ≡ true
      → passes (prior step) o ≡ true
      → Post (After step quiet id) E (confirm_journal step h.t o) m
  unfolding confirm_journal
  confirm_journal-After step h none ordered before = cc
  confirm_journal-After step h (some j) ordered before =
      if-Post (is_started (status_of step j))
        (λ now.
          let still = completed-is_ordered step j ordered before now in
          replaced _ step completed j still (
            next (Keeps (done step) quiet id)
              (save _ (with_journal-Keeps (done step) h _ still (done-with_status step j)))
              (λ m kept. return-Post true (kept.holds, λ fine. kept.fits))))
        (λ other. return-Post false (h, λ fine. cc))

  pub confirm_step-After :
      {E : Machine → Type 0} (step : CleanupStep) (result : Outcome Text (Unit {0}))
      → Keeps (prior step) quiet id m
      → Post (After step quiet id) E (confirm_step id step result) m
  unfolding confirm_step
  confirm_step-After step (err code) k = return-Post false (k.holds, λ fine. cc)
  confirm_step-After step (ok called) k =
      load _ id k.holds.t k.holds.stored k.holds.same
        (confirm_journal-After step k.holds k.holds.t.cleanup_journal k.holds.ordered k.fits)

pub completed-done :
    (step : CleanupStep) (j : CleanupJournal) → status_of step j ≡ completed → done step j ≡ true
completed-done step j h = ap is_completed h
