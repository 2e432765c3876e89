-- ===== src/Updater/Machine.antt =====
-- How the methods of updater/manager.py run: they read and save the state file, call the platform
-- (updater/platform.py and the clock), and raise. The platform is a parameter: what it answers may
-- depend on every call made so far.
use finance_reconciliation.Prelude.{ℕ, Bool, true, false, List, ◌∷◌}
use finance_reconciliation.Prelude.Text.{Text}
use finance_reconciliation.Prelude.Outcome.{Outcome, ok, err}
use finance_reconciliation.Updater.Types.{ImageIdentity, CleanupStep, UpdateTask, PersistentState}

-- `UpdateConflict`, by its code, and the `ValueError`s that updater/types.py raises.
pub data Conflict : Type 0 where
  invalid_task_id task_id_conflict target_changed cleanup_not_pending cleanup_incomplete : Conflict
  task_not_found task_not_ready stale_check target_mismatch no_update : Conflict
  repository_mismatch task_active : Conflict
  invalid_version invalid_state : Conflict

-- `SafeOperationError` carries a code.
pub data Raised : Type 0 where
  safe : Text → Raised
  conflict : Conflict → Raised

-- The calls that leave the process.
pub data Call : Type 0 where
  inspect_web resolve_stable create_backup stop_web clock : Call
  verify_target migrate_target start_target health : ImageIdentity → Call
  tag_rollback start_rollback : UpdateTask → Call
  persist_version : Text → Call
  cleanup_original_step : UpdateTask → CleanupStep → Call
  sleep : ℕ → Call

-- The answers, each given the calls made before, the latest first.
pub record Platform : Type 0 where
  pub inspected : List Call → Outcome Text ImageIdentity
  pub stable : List Call → Outcome Text ImageIdentity
  pub backups : List Call → Outcome Text (Text × Text)
  -- the alias that it has tagged
  pub tagged : UpdateTask → List Call → Outcome Text Text
  pub performed : Call → List Call → Outcome Text (Unit {0})
  pub now : List Call → ℕ

pub record Machine : Type 0 where
  pub state : PersistentState
  pub calls : List Call

abbrev pub Run : Type 0 → Type 0
Run A = Machine → Machine × Outcome Raised A

abbrev pub and_then :
    {A B : Type 0} → Machine × Outcome Raised A → (A → Run B) → Machine × Outcome Raised B
and_then (m, ok a) rest = rest a m
and_then (m, err e) rest = (m, err e)

infixl 5 ◌>>=◌ ◌>>◌
unfoldable pub ◌>>=◌ : {A B : Type 0} → Run A → (A → Run B) → Run B
(first >>= rest) m = and_then (first m) rest

unfoldable pub ◌>>◌ : {B : Type 0} → Run (Unit {0}) → Run B → Run B
(first >> rest) m = and_then (first m) (λ done. rest)

unfoldable pub return : {A : Type 0} → A → Run A
return a m = (m, ok a)

unfoldable pub raise : {A : Type 0} → Conflict → Run A
raise c m = (m, err (conflict c))

-- `if test: raise UpdateConflict(code)`
unfoldable pub raise_if : Bool → Conflict → Run (Unit {0})
raise_if true c = raise c
raise_if false c = return tt

abbrev pub caught :
    {A : Type 0} → Machine × Outcome Raised A → Machine × Outcome Raised (Outcome Text A)
caught (m, ok a) = (m, ok (ok a))
caught (m, err (safe code)) = (m, ok (err code))
caught (m, err (conflict c)) = (m, err (conflict c))

-- `try: … except SafeOperationError as error`: goes on with the value, or with the code.
unfoldable pub attempt : {A : Type 0} → Run A → Run (Outcome Text A)
attempt body m = caught (body m)

abbrev pub answered : {A : Type 0} → Outcome Text A → Outcome Raised A
answered (ok a) = ok a
answered (err code) = err (safe code)

-- A call of the platform.
unfoldable pub ask : {A : Type 0} → Call → (List Call → Outcome Text A) → Run A
ask call answer m = (record { state = m.state; calls = call ∷ m.calls }, answered (answer m.calls))

unfoldable pub get_state : Run PersistentState
get_state m = (m, ok m.state)

unfoldable pub save_state : PersistentState → Run (Unit {0})
save_state s m = (record { state = s; calls = m.calls }, ok tt)

module _ (p : Platform) where
  unfoldable pub perform : Call → Run (Unit {0})
  perform call = ask call (p.performed call)

  unfoldable pub current_time : Run ℕ
  current_time = ask clock (λ calls. ok (p.now calls))
