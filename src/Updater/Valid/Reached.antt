-- ===== src/Updater/Valid/Reached.antt =====
-- The operations of `UpdateManager` (updater/manager.py), one after another, from a state file that does not
-- exist yet.
use finance_reconciliation.Prelude.{ℕ, ◌≡◌, refl, true, Option, some, List, [], ◌∷◌}
use finance_reconciliation.Prelude.Text.{Text}
use finance_reconciliation.Prelude.Outcome.{Outcome, ok, err}
use finance_reconciliation.Updater.Machine.{Raised, Platform, Machine, Run}
use finance_reconciliation.Updater.Manager.Cleanup.{complete_pending_cleanup}
use finance_reconciliation.Updater.Manager.Execute.{execute}
use finance_reconciliation.Updater.Manager.Recover.{recover}
use finance_reconciliation.Updater.Manager.Checks.{check, start, status}
use finance_reconciliation.Updater.State.Json.{Codec, utc}
use finance_reconciliation.Updater.State.Encode.{state_to_dict}
use finance_reconciliation.Updater.State.Decode.{state_from_dict}
use finance_reconciliation.Updater.State.RoundTrip.{is_valid, state_from_dict-state_to_dict}
use finance_reconciliation.Updater.State.Store.{empty_state}
use finance_reconciliation.Updater.Valid.Rules.{IsSafe, Gives, Any}
use finance_reconciliation.Updater.Valid.Cleans.{complete_pending_cleanup-Gives}
use finance_reconciliation.Updater.Valid.Updates.{execute-Gives}
use finance_reconciliation.Updater.Valid.Recoveries.{recover-Gives}
use finance_reconciliation.Updater.Valid.Requests.{
  HasVersions, status-Gives, check-Gives, start-Gives,
}

-- The public methods of `UpdateManager`, and the function that `start` returns.
pub data Operation : Type 0 where
  checks shows_status recovers completes_cleanup : Operation
  starts : Text → Option ℕ → ℕ → Operation
  executes : ℕ → Operation

module _ (p : Platform) where
  -- What an operation leaves, whether it returns or raises.
  abbrev operated : Operation → Machine → Machine
  operated checks m = (check p m).0
  operated shows_status m = (status p m).0
  operated recovers m = (recover p m).0
  operated completes_cleanup m = (complete_pending_cleanup p m).0
  operated (starts target_version task_id fresh) m = (start p target_version task_id fresh m).0
  operated (executes id) m = (execute p id m).0

  -- The operations, the last one first.
  abbrev pub reached : List Operation → Machine
  reached [] = record { state = empty_state; calls = [] }
  reached (operation ∷ before) = operated operation (reached before)

  safe_state :
      {A : Type 0} (r : Machine × Outcome Raised A) → IsSafe Any r → is_valid r.0.state ≡ true
  safe_state (m, ok a) (valid, any) = valid
  safe_state (m, err e) valid = valid

  kept :
      {A : Type 0} {run : Run A} (m : Machine)
      → Gives Any run
      → is_valid m.state ≡ true
      → is_valid (run m).0.state ≡ true
  kept {run = run} m h valid = safe_state (run m) (h.gives m valid)

  module _ (versions : HasVersions p) where
    operated-is_valid :
        (operation : Operation) (m : Machine)
        → is_valid m.state ≡ true
        → is_valid (operated operation m).state ≡ true
    operated-is_valid checks m valid = kept m (check-Gives p versions) valid
    operated-is_valid shows_status m valid = kept m (status-Gives p) valid
    operated-is_valid recovers m valid = kept m (recover-Gives p) valid
    operated-is_valid completes_cleanup m valid = kept m (complete_pending_cleanup-Gives p) valid
    operated-is_valid (starts target_version task_id fresh) m valid =
        kept m (start-Gives p versions target_version task_id fresh) valid
    operated-is_valid (executes id) m valid = kept m (execute-Gives p id) valid

    reached-is_valid : (operations : List Operation) → is_valid (reached operations).state ≡ true
    unfolding is_valid
    reached-is_valid [] = refl
    reached-is_valid (operation ∷ before) =
        operated-is_valid operation (reached before) (reached-is_valid before)

    -- Whatever operations of the manager follow one another from the empty state, in any order, and
    -- whether they return or raise, the state that they leave is read back from what is written of
    -- it. The platform answers with images that have a version, and the standard library reads what
    -- it writes of a time stamp in UTC and of a UUID.
    pub reached-readable :
        (codec : Codec)
        → ((t : ℕ) → codec.fromisoformat (codec.isoformat t) ≡ some (utc t))
        → ((k : ℕ) → codec.uuid (codec.str_uuid k) ≡ some k)
        → (operations : List Operation)
        → state_from_dict codec (state_to_dict codec (reached operations).state)
          ≡ ok (reached operations).state
    reached-readable codec reads_time reads_uuid operations =
        state_from_dict-state_to_dict codec reads_time reads_uuid (reached operations).state
          (reached-is_valid operations)
