-- ===== src/Updater/Manager/Holds.antt =====
-- What the steps of the manager keep: the stored task, its identifier and the order of its journal,
-- and, until the web application is stopped, that it has not been.
use finance_reconciliation.Prelude.{
  ℕ, ◌≡◌, refl, Bool, true, false, ◌&&◌, Option, none, some, List, ◌∷◌, arith, any, ==_refl,
}
use finance_reconciliation.Updater.Types.{
  failed, succeeded, complete, CheckResult, CleanupJournal, is_ordered, UpdateTask,
}
use finance_reconciliation.Updater.Manager.Cleanup.{journal_complete}
use finance_reconciliation.Updater.Machine.{
  Call, stop_web, clock, Platform, Machine, Run, ◌>>=◌, return, ask, perform, current_time,
  get_state, save_state,
}
use finance_reconciliation.Updater.Logic.{Post, return-Post, ask-Post}
use finance_reconciliation.Updater.Manager.Tasks.{require_task, load_task, save_task, start_time}
use finance_reconciliation.Updater.Manager.Phases.{is_terminal}

abbrev pub is_stop : Call → Bool
is_stop call = elim call [ stop_web ↦ true | _ ↦ false ]

-- Whether a call has stopped the web application.
abbrev pub has_stopped : List Call → Bool
has_stopped calls = any is_stop calls

abbrev pub is_ordered_if_any : Option CleanupJournal → Bool
is_ordered_if_any none = true
is_ordered_if_any (some j) = is_ordered j

-- The task `id` is stored. With `quiet`, nothing has been stopped.
pub record Holds (quiet : Bool) (id : ℕ) (m : Machine) : Type 0 where
  pub t : UpdateTask
  pub stored : m.state.task ≡ some t
  pub same : t.id ≡ id
  pub ordered : is_ordered_if_any t.cleanup_journal ≡ true
  pub silent : quiet ≡ true → has_stopped m.calls ≡ false

-- The task `id` has ended. A task that failed without a rollback never stopped anything. A task that
-- succeeded has a complete journal if its cleanup is complete, and is saved with a check that has the
-- target as the current image and no update.
pub record Ended (id : ℕ) (m : Machine) : Type 0 where
  pub t : UpdateTask
  pub stored : m.state.task ≡ some t
  pub same : t.id ≡ id
  pub terminal : is_terminal t.stage ≡ true
  pub honest : t.stage ≡ failed → t.rolled_back ≡ false → has_stopped m.calls ≡ false
  pub cleaned :
      t.stage ≡ succeeded → t.cleanup ≡ complete → journal_complete t.cleanup_journal ≡ true
  pub checked :
      t.stage ≡ succeeded
      → (c : CheckResult) × (m.state.last_check ≡ some c)
        × (c.current ≡ t.target)
        × (c.available ≡ false)

-- What the cleanup leads to: where it says that it is complete, the journal is.
abbrev pub Cleaned : Bool → ℕ → Bool → Machine → Type 0
Cleaned quiet id fine m =
    (h : Holds quiet id m) × (fine ≡ true → journal_complete h.t.cleanup_journal ≡ true)

abbrev pub with_task : UpdateTask → Machine → Machine
with_task t m = record {
  state = record { last_check = m.state.last_check; task = some t };
  calls = m.calls;
}

abbrev pub with_call : Call → Machine → Machine
with_call call m = record { state = m.state; calls = call ∷ m.calls }

pub still_silent :
    (call : Call) (calls : List Call) (quiet : Bool)
    → (is_stop call && quiet) ≡ false
    → quiet ≡ true
    → has_stopped calls ≡ false
    → has_stopped (call ∷ calls) ≡ false
still_silent call calls quiet other quiet_so before = ground arith

-- The machine goes on with the stored task.
pub load :
    {B : Type 0} {Q : B → Machine → Type 0} {E : Machine → Type 0} {m : Machine}
    (rest : UpdateTask → Run B) (id : ℕ) (t : UpdateTask)
    → m.state.task ≡ some t
    → t.id ≡ id
    → Post Q E (rest t) m
    → Post Q E (load_task id >>= rest) m
unfolding load_task require_task get_state ◌>>=◌ return
load rest id t stored same h = record { meets = simp (stored, same, ==_refl id) h.meets }

pub save :
    {Q : Unit {0} → Machine → Type 0} {E : Machine → Type 0} {m : Machine} (t : UpdateTask)
    → Q tt (with_task t m)
    → Post Q E (save_task t) m
unfolding save_task get_state save_state ◌>>=◌
save t h = record { meets = h }

module _ {quiet : Bool} {id : ℕ} {m : Machine} where
  abbrev pub saved-Holds :
      (t : UpdateTask)
      → Holds quiet id m
      → t.id ≡ id
      → is_ordered_if_any t.cleanup_journal ≡ true
      → Holds quiet id (with_task t m)
  saved-Holds t h same ordered = record {
    t = t;
    stored = refl;
    same = same;
    ordered = ordered;
    silent = h.silent;
  }

  abbrev pub called-Holds :
      (call : Call)
      → (is_stop call && quiet) ≡ false
      → Holds quiet id m
      → Holds quiet id (with_call call m)
  called-Holds call other h = record {
    t = h.t;
    stored = h.stored;
    same = h.same;
    ordered = h.ordered;
    silent = λ quiet_so. still_silent call m.calls quiet other quiet_so (h.silent quiet_so);
  }

module _ (p : Platform) {quiet : Bool} {id : ℕ} {m : Machine} where
  pub perform-Holds :
      (call : Call)
      → (is_stop call && quiet) ≡ false
      → Holds quiet id m
      → Post (λ done. Holds quiet id) (Holds quiet id) (perform p call) m
  unfolding perform
  perform-Holds call other h =
      ask-Post call _ (λ done. called-Holds call other h) (called-Holds call other h)

  pub current_time-Holds :
      {E : Machine → Type 0} → Holds quiet id m → Post (λ time. Holds quiet id) E (current_time p) m
  unfolding current_time ask
  current_time-Holds h = record { meets = called-Holds clock refl h }

  pub start_time-Holds :
      {E : Machine → Type 0} (time : Option ℕ)
      → Holds quiet id m
      → Post (λ time. Holds quiet id) E (start_time p time) m
  unfolding start_time
  start_time-Holds none h = current_time-Holds h
  start_time-Holds (some time) h = return-Post time h
