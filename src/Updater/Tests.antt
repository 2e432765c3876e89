-- ===== src/Updater/Tests.antt =====
-- Concrete runs of the update manager, and instances of its theorems.
use finance_reconciliation.Prelude.{ℕ, ◌≡◌, refl, Bool, true, false, Option, none, some, [], ◌∷◌}
use finance_reconciliation.Prelude.Text.{Text, codes}
use finance_reconciliation.Prelude.Outcome.{Outcome, ok, err}
use finance_reconciliation.Updater.Types.{
  Stage, migrating, failed, succeeded, ImageIdentity, CheckResult, UpdateTask, public_view,
}
use finance_reconciliation.Updater.Versions.{
  read_digits, read_number, expect, version_key, is_later, is_newer,
}
use finance_reconciliation.Updater.Machine.{
  Raised, Call, start_target, resolve_stable, clock, Platform, Machine, Run, ◌>>=◌, ◌>>◌, return,
  raise, raise_if, attempt, ask, get_state, save_state, perform, current_time,
}
use finance_reconciliation.Updater.Atomic.{Atomic}
use finance_reconciliation.Updater.Manager.Tasks.{
  require_task, load_task, save_task, record_backups, start_time, checkpoint, finish_failed,
  finish_manual, commit_success,
}
use finance_reconciliation.Updater.Manager.Cleanup.{
  replace_status, confirm_journal, confirm_step, mark_pending, call_step, begin_step, journal_step,
  cleanup_steps, cleanup_task, cleanup_original,
}
use finance_reconciliation.Updater.Manager.Execute.{
  raise_again, safe_error_code, require_ready_task, pause, retry_health, wait_for_health,
  stabilize_rounds, stabilize, restore_original, finish_rollback, rollback_to_original,
  handle_failure, prepare, replace_web, finish_update, go_on, execute,
}
use finance_reconciliation.Updater.Manager.Recover.{recover}
use finance_reconciliation.Updater.Manager.Holds.{Ended}
use finance_reconciliation.Updater.Manager.Ends.{execute-ends}
use finance_reconciliation.Updater.Manager.Recovers.{recover-ends}
use finance_reconciliation.Updater.Manager.Checks.{
  reject_active_task, require_matching_repositories, or_invalid, Started, start_again, new_task,
  check, check_age, fresh_check, require_fresh_check, start_new, start_from, start,
}
use finance_reconciliation.Updater.Manager.Checked.{IsChecked, check-IsChecked}
use finance_reconciliation.Updater.Manager.Starts.{IsStarted, start-IsStarted, start-executes}

abbrev image : Text → Text → ImageIdentity
image version id = record {
  repository = codes "app";
  version = version;
  digest = id;
  image_id = id;
  tags = version ∷ [];
  rollback_alias = [];
  published_at = none;
}

abbrev old : ImageIdentity
old = image (codes "v1.9.0") (codes "a")

abbrev newer : ImageIdentity
newer = image (codes "v1.10.0") (codes "b")

newer-than_old : is_newer newer.version old.version ≡ some true
unfolding is_newer is_later version_key read_number read_digits expect
newer-than_old = refl

-- A platform on which all goes well but what is refused.
abbrev platform : (Call → Bool) → Platform
platform refuses = record {
  inspected = λ calls. ok old;
  stable = λ calls. ok newer;
  backups = λ calls. ok (codes "db", codes "files");
  tagged = λ t calls. ok (codes "alias");
  performed = λ call calls. elim (refuses call) [ true ↦ err (codes "odd") | false ↦ ok tt ];
  now = λ calls. 1000;
}

abbrev calm : Platform
calm = platform (λ call. false)

-- The target does not start.
abbrev broken : Platform
broken = platform (λ call. elim call [ start_target i ↦ true | _ ↦ false ])

abbrev checked : CheckResult
checked = record { current = old; target = newer; available = true; checked_at = 900 }

abbrev idle : Machine
idle = record { state = record { last_check = some checked; task = none }; calls = [] }

abbrev task : UpdateTask
task = new_task 7 checked 1000

abbrev begun : Machine
begun = record {
  state = record { last_check = some checked; task = some task };
  calls = clock ∷ resolve_stable ∷ clock ∷ [];
}

abbrev reply : Started
reply = record { view = public_view task; executes = some 7 }

start-idle : start calm (codes "v1.10.0") none 7 idle ≡ (begun, ok reply)
unfolding newer-than_old start start_from start_new start_again reject_active_task
    require_fresh_check fresh_check check_age require_matching_repositories or_invalid raise_if
    raise ask get_state save_state current_time ◌>>=◌ ◌>>◌ return
start-idle = refl

abbrev outcome : Machine × Outcome Raised (Unit {0}) → Option (Stage × Bool)
outcome (m, r) = elim m.state.task [ none ↦ none | some t ↦ some (t.stage, t.rolled_back) ]

run_execute : Platform → ℕ → Run (Unit {0})
unfolding execute go_on finish_update replace_web prepare handle_failure rollback_to_original
    finish_rollback restore_original stabilize stabilize_rounds wait_for_health retry_health pause
    require_ready_task safe_error_code raise_again cleanup_original cleanup_task cleanup_steps
    journal_step begin_step call_step mark_pending confirm_step confirm_journal replace_status
    commit_success finish_manual finish_failed checkpoint start_time record_backups save_task
    load_task require_task attempt perform start-idle
run_execute = execute

execute-succeeds : outcome (execute calm 7 begun) ≡ some (succeeded, false)
unfolding run_execute
execute-succeeds = refl

execute-rolls_back : outcome (execute broken 7 begun) ≡ some (failed, true)
unfolding run_execute
execute-rolls_back = refl

execute-ends_example : (m' : Machine) × (execute broken 7 begun ≡ (m', ok tt)) × Ended 7 m'
execute-ends_example = execute-ends broken begun task refl refl refl refl

-- The process died while it was migrating.
abbrev migrated : UpdateTask
migrated = record task { stage = migrating }

abbrev died : Machine
died = record { state = record { last_check = some checked; task = some migrated }; calls = [] }

recover-ends_example : (m' : Machine) × (recover calm died ≡ (m', ok tt)) × Ended 7 m'
recover-ends_example = recover-ends calm died migrated refl refl refl refl

check-IsChecked_example : Atomic idle.state (IsChecked idle.state) (check calm) idle
check-IsChecked_example = check-IsChecked calm idle

start-IsStarted_example :
    Atomic idle.state
      (IsStarted (codes "v1.10.0") none 7 idle.state)
      (start calm (codes "v1.10.0") none 7)
      idle
start-IsStarted_example = start-IsStarted calm (codes "v1.10.0") none 7 idle

start-executes_example : (m' : Machine) × (execute calm 7 begun ≡ (m', ok tt)) × Ended 7 m'
start-executes_example =
    start-executes calm (codes "v1.10.0") none 7 7 idle begun reply (λ t. cc) start-idle refl refl
