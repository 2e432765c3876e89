-- ===== src/Updater/Manager/Journal.antt =====
-- `_cleanup_original` takes the steps in order, so that no journal it builds is refused: it returns,
-- and raises nothing.
use finance_reconciliation.Prelude.{
  ℕ, ◌≡◌, refl, ap, ◌∙◌, Bool, true, false, Option, none, some, List, [], ◌∷◌,
}
use finance_reconciliation.Updater.Types.{
  CleanupStep, version_tag, rollback_alias, image_id, CleanupStepStatus, not_started, started,
  completed, CleanupJournal, is_ordered, status_of,
}
use finance_reconciliation.Updater.Machine.{cleanup_original_step, Platform, Machine, perform}
use finance_reconciliation.Updater.Logic.{
  Post, weaken, after, next, attempt-either, ask-Post, return-Post, if-Post,
}
use finance_reconciliation.Updater.Manager.Cleanup.{
  is_not_run, journal_complete, all_steps, call_step, begin_step, journal_step, cleanup_steps,
  mark_pending, cleanup_task, cleanup_original,
}
use finance_reconciliation.Updater.Manager.Holds.{
  is_ordered_if_any, Holds, Cleaned, load, save, saved-Holds,
}
use finance_reconciliation.Updater.Manager.Order.{
  prior, done, passes, Keeps, After, with_journal-Keeps, call-Keeps, replaced, confirm_step-After,
  started-is_ordered, prior-with_status, completed-done,
}

as_complete :
    (o : Option CleanupJournal) → passes (done image_id) o ≡ true → journal_complete o ≡ true
as_complete none h = cc
as_complete (some j) h = h

After-Cleaned :
    {quiet : Bool} {id : ℕ} (fine : Bool) (m : Machine)
    → After image_id quiet id fine m
    → Cleaned quiet id fine m
After-Cleaned fine m (h, kept) = (h, λ so. as_complete h.t.cleanup_journal (kept so))

module _ (p : Platform) {E : Machine → Type 0} {quiet : Bool} {id : ℕ} where
  call_step-After :
      {m : Machine} (step : CleanupStep)
      → Keeps (prior step) quiet id m
      → Post (After step quiet id) E (call_step p id step) m
  unfolding call_step perform
  call_step-After step k = load _ id k.holds.t k.holds.stored k.holds.same (
      after (λ result. Keeps (prior step) quiet id)
        (attempt-either (
          ask-Post (cleanup_original_step k.holds.t step) _ (λ called. call-Keeps _ step k)
            (call-Keeps _ step k)))
        (λ result m kept. confirm_step-After step result kept))

  begin_step-After :
      {m : Machine} (step : CleanupStep) (h : Holds quiet id m) (j : CleanupJournal)
      (status : CleanupStepStatus)
      → is_ordered j ≡ true
      → prior step j ≡ true
      → status_of step j ≡ status
      → Keeps (prior step) quiet id m
      → (status ≡ completed → passes (done step) h.t.cleanup_journal ≡ true)
      → Post (After step quiet id) E (begin_step p id step h.t j status) m
  unfolding begin_step
  begin_step-After step h j completed ordered before now k finished =
      return-Post true (h, λ fine. finished refl)
  begin_step-After step h j started ordered before now k finished = call_step-After step k
  begin_step-After step h j not_started ordered before now k finished =
      let still = started-is_ordered step j ordered before now in
      replaced _ step started j still (
        next (Keeps (prior step) quiet id)
          (save _
            (with_journal-Keeps (prior step) h _ still (prior-with_status step started j before)))
          (λ m kept. call_step-After step kept))

  journal_step-After :
      {m : Machine} (step : CleanupStep) (h : Holds quiet id m) (o : Option CleanupJournal)
      → h.t.cleanup_journal ≡ o
      → is_ordered_if_any o ≡ true
      → passes (prior step) o ≡ true
      → Post (After step quiet id) E (journal_step p id step h.t o) m
  unfolding journal_step
  journal_step-After step h none same ordered before = cc
  journal_step-After step h (some j) same ordered before =
      begin_step-After step h j (status_of step j) ordered before refl
        (record { holds = h; fits = ap (passes (prior step)) same ∙ before })
        (λ now. ap (passes (done step)) same ∙ completed-done step j now)

  -- The steps follow one another.
  turn :
      {m : Machine} (step : CleanupStep) (steps : List CleanupStep)
      → Keeps (prior step) quiet id m
      → ((m : Machine)
          → Keeps (done step) quiet id m
          → Post (After image_id quiet id) E (cleanup_steps p id steps) m)
      → Post (After image_id quiet id) E (cleanup_steps p id (step ∷ steps)) m
  unfolding cleanup_steps
  turn step steps k rest = load _ id k.holds.t k.holds.stored k.holds.same (
      after (After step quiet id)
        (journal_step-After step k.holds k.holds.t.cleanup_journal refl k.holds.ordered k.fits)
        (λ fine m (h, kept).
          if-Post fine (λ so. rest m (record { holds = h; fits = kept so }))
            (λ no. return-Post false (h, λ fine. cc))))

  last_turn :
      {m : Machine}
      → Keeps (done image_id) quiet id m
      → Post (After image_id quiet id) E (cleanup_steps p id []) m
  unfolding cleanup_steps
  last_turn k = return-Post true (k.holds, λ fine. k.fits)

  cleanup_steps-Holds :
      {m : Machine}
      → Keeps (prior version_tag) quiet id m
      → Post (After image_id quiet id) E (cleanup_steps p id all_steps) m
  cleanup_steps-Holds k = turn version_tag (rollback_alias ∷ image_id ∷ []) k (λ m k.
      turn rollback_alias (image_id ∷ []) k (λ m k. turn image_id [] k (λ m k. last_turn k)))

  mark_pending-Keeps :
      {m : Machine} (k : Keeps (prior version_tag) quiet id m)
      → Post (λ marked. Keeps (prior version_tag) quiet id) E (mark_pending k.holds.t) m
  unfolding mark_pending
  mark_pending-Keeps k =
      if-Post (is_not_run k.holds.t.cleanup)
        (λ fresh.
          save _
            (record { holds = saved-Holds _ k.holds k.holds.same k.holds.ordered; fits = k.fits }))
        (λ other. return-Post tt k)

  cleanup_task-Holds :
      {m : Machine} (o : Option CleanupJournal) (h : Holds quiet id m)
      → h.t.cleanup_journal ≡ o
      → Post (After image_id quiet id) E (cleanup_task p id h.t o) m
  unfolding cleanup_task
  cleanup_task-Holds none h same = return-Post false (h, λ fine. cc)
  cleanup_task-Holds (some j) h same =
      next (Keeps (prior version_tag) quiet id)
        (mark_pending-Keeps (record { holds = h; fits = ap (passes (prior version_tag)) same }))
        (λ m k. cleanup_steps-Holds k)

  pub cleanup_original-Holds :
      {m : Machine} → Holds quiet id m → Post (Cleaned quiet id) E (cleanup_original p id) m
  unfolding cleanup_original
  cleanup_original-Holds h =
      load _ id h.t h.stored h.same
        (weaken After-Cleaned (λ m e. e) (cleanup_task-Holds h.t.cleanup_journal h refl))
