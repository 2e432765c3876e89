-- ===== src/Updater/State/Public.antt =====
-- What `status` of updater/manager.py gives away of the saved state: `public_view` and the views of
-- updater/types.py.
use finance_reconciliation.Prelude.{
  ◌≡◌, refl, ◌⊎◌, inl, inr, Bool, true, false, not, ◌&&◌, Option, none, some, List, [],
  Option-cases, if◌then◌else◌,
}
use finance_reconciliation.Prelude.Text.{Text, codes, is_empty}
use finance_reconciliation.Prelude.Outcome.{Outcome, ok, err}
use finance_reconciliation.Updater.Types.{
  ImageIdentity, CheckResult, UpdateTask, PersistentState, TaskView, StatusView, public_message,
  public_error, public_view,
}
use finance_reconciliation.Updater.Machine.{
  Raised, Call, Platform, Machine, ◌>>=◌, return, answered, ask, get_state,
}
use finance_reconciliation.Updater.Manager.Checks.{
  status_from_state, view_task, status_of_state, status,
}
use finance_reconciliation.Updater.State.Json.{Json, Codec}
use finance_reconciliation.Updater.State.Views.{status_view_to_dict}

-- An image with its version and its date of publication only.
abbrev bare : ImageIdentity → ImageIdentity
bare i = record {
  repository = [];
  version = i.version;
  digest = [];
  image_id = [];
  tags = [];
  rollback_alias = [];
  published_at = i.published_at;
}

abbrev bare_check : Option CheckResult → Option CheckResult
bare_check none = none
bare_check (some c) = some (record {
  current = bare c.current;
  target = bare c.target;
  available = c.available;
  checked_at = c.checked_at;
})

abbrev backed_up : UpdateTask → Bool
backed_up t = not (is_empty t.database_backup) && not (is_empty t.uploads_backup)

-- A task without the digests, tags and journal, with a mark for two backups, and the public code of
-- its error.
abbrev bare_task : Option UpdateTask → Option UpdateTask
bare_task none = none
bare_task (some t) = some (record {
  id = t.id;
  original = bare t.original;
  target = bare t.target;
  stage = t.stage;
  created_at = t.created_at;
  started_at = t.started_at;
  finished_at = t.finished_at;
  database_backup = if backed_up t then codes "-" else [];
  uploads_backup = if backed_up t then codes "-" else [];
  rolled_back = t.rolled_back;
  cleanup = t.cleanup;
  cleanup_journal = none;
  error_code = (public_error t.error_code).0;
  error_message = [];
})

abbrev pub bare_state : PersistentState → PersistentState
bare_state s = record { last_check = bare_check s.last_check; task = bare_task s.task }

abbrev pub sent : Codec → Outcome Raised StatusView → Outcome Raised Json
sent codec (ok v) = ok (status_view_to_dict codec v)
sent codec (err e) = err e

-- A task is shown with one of the messages for the public.
abbrev IsShown : Option TaskView → Type 0
IsShown none = Unit {0}
IsShown (some v) = public_message v.error_code ≡ some v.error_message

abbrev pub ShowsMessage : Outcome Raised StatusView → Type 0
ShowsMessage (ok v) = IsShown v.task
ShowsMessage (err e) = Unit {0}

mark-is_empty :
    (b : Bool)
    → (not (is_empty (if b then codes "-" else [])) && not (is_empty (if b then codes "-" else [])))
      ≡ b
mark-is_empty true = refl
mark-is_empty false = refl

abbrev unknown_error : Text × Text
unknown_error = (codes "update_failed", codes "升级失败，请联系管理员。")

public_error-unknown :
    (code : Text) → public_message code ≡ none → public_error code ≡ unknown_error
public_error-unknown code h = rw (public_error, h) refl

public_error-known :
    (code message : Text) → public_message code ≡ some message → public_error code ≡ (code, message)
public_error-known code message h = rw (public_error, h) refl

public_message-update_failed : public_message (codes "update_failed") ≡ some (unknown_error.1)
unfolding public_message
public_message-update_failed = refl

-- The code that is shown has the message that is shown, and so is shown again as it is.
public_error-message :
    (code : Text)
    → (public_message (public_error code).0 ≡ some (public_error code).1)
      × (public_error (public_error code).0 ≡ public_error code)
public_error-message code = elim (Option-cases (public_message code)) [
  | inl unknown ↦ rw (public_error-unknown code unknown) (
    public_message-update_failed,
    public_error-known (codes "update_failed") _ public_message-update_failed,
  )
  | inr (message, known) ↦
      rw (public_error-known code message known) (known, public_error-known code message known)
]

view_task-bare : (task : Option UpdateTask) → view_task (bare_task task) ≡ view_task task
unfolding public_view
view_task-bare none = refl
view_task-bare (some t) =
    rw (mark-is_empty (backed_up t), (public_error-message t.error_code).1) refl

view_task-shows : (task : Option UpdateTask) → IsShown (view_task task)
unfolding public_view
view_task-shows none = tt
view_task-shows (some t) = (public_error-message t.error_code).0

Outcome-cases :
    {A : Type 0} (o : Outcome Raised A) → ((a : A) × (o ≡ ok a)) ⊎ ((e : Raised) × (o ≡ err e))
Outcome-cases (ok a) = inl (a, refl)
Outcome-cases (err e) = inr (e, refl)

module _ (codec : Codec) (p : Platform) where
  status_of_state-bare :
      (last_check : Option CheckResult) (task : Option UpdateTask) (m n : Machine)
      → m.calls ≡ n.calls
      → sent codec (status_of_state p (bare_check last_check) (bare_task task) m).1
        ≡ sent codec (status_of_state p last_check task n).1
  unfolding status_of_state status_from_state ◌>>=◌ return ask status_view_to_dict
  status_of_state-bare (some c) task m n same = rw (view_task-bare task) refl
  status_of_state-bare none task m n same = elim (Outcome-cases (answered (p.inspected n.calls))) [
    | inl (i, e) ↦ rw (view_task-bare task, same, e) refl
    | inr (code, e) ↦ rw (view_task-bare task, same, e) refl
  ]

  status_of_state-ShowsMessage :
      (last_check : Option CheckResult) (task : Option UpdateTask) (m : Machine)
      → ShowsMessage (status_of_state p last_check task m).1
  unfolding status_of_state status_from_state ◌>>=◌ return ask
  status_of_state-ShowsMessage (some c) task m = view_task-shows task
  status_of_state-ShowsMessage none task m = elim (Outcome-cases (answered (p.inspected m.calls))) [
    | inl (i, e) ↦ rw e (view_task-shows task)
    | inr (code, e) ↦ rw e tt
  ]

  -- What `status` answers, as JSON, is the same of a state of which only the versions, their dates of
  -- publication, the course of the task, the fact that both backups were made and the public code of
  -- its error are left; and a task is shown with the message that the table of messages for the
  -- public has for the code that is shown.
  pub status-bare_state :
      (s : PersistentState) (calls : List Call)
      → (sent codec (status p (record { state = bare_state s; calls = calls })).1
          ≡ sent codec (status p (record { state = s; calls = calls })).1)
        × ShowsMessage (status p (record { state = s; calls = calls })).1
  unfolding status ◌>>=◌ get_state
  status-bare_state s calls = (
    status_of_state-bare s.last_check s.task _ _ refl,
    status_of_state-ShowsMessage s.last_check s.task _,
  )
