-- ===== src/Updater/State/Tests.antt =====
-- The state of an update under way, written and read back, and instances of the theorems.
use finance_reconciliation.Prelude.{ℕ, ◌≡◌, refl, Bool, true, false, Option, none, some, [], ◌∷◌}
use finance_reconciliation.Prelude.Text.{Text, codes}
use finance_reconciliation.Prelude.Outcome.{ok, err}
use finance_reconciliation.Updater.Types.{
  migrating, not_run, not_started, started, completed, ImageIdentity, UpdateTask, failed,
  PersistentState,
}
use finance_reconciliation.Updater.Versions.{expect, read_number, read_digits, version_key}
use finance_reconciliation.Updater.State.Json.{
  json_null, json_object, field, end_object, Codec, Instant, utc, invalid_state,
}
use finance_reconciliation.Updater.State.Encode.{journal_to_dict, state_to_dict}
use finance_reconciliation.Updater.State.Decode.{journal_from_dict, state_from_dict}
use finance_reconciliation.Updater.State.RoundTrip.{is_valid, state_from_dict-state_to_dict}
use finance_reconciliation.Updater.State.Sound.{state_from_dict-is_valid}
use finance_reconciliation.Updater.State.Store.{
  JsonText, Disk, missing, Step, sync_directory, chmod_directory, unsafe_state_path, Kernel, save,
  load, atomic_private_replace,
}
use finance_reconciliation.Updater.State.Kept.{next_load, Kept, save-Kept}
use finance_reconciliation.Updater.Machine.{Platform}
use finance_reconciliation.Updater.Manager.Checks.{status}
use finance_reconciliation.Updater.State.Public.{bare_state, sent, ShowsMessage, status-bare_state}

abbrev read_time : Text → Option Instant
read_time [] = none
read_time (t ∷ rest) = some (utc t)

abbrev read_key : Text → Option ℕ
read_key [] = none
read_key (k ∷ rest) = some k

-- A codec whose texts have one character.
abbrev short : Codec
short = record {
  isoformat = λ t. t ∷ [];
  fromisoformat = read_time;
  str_uuid = λ k. k ∷ [];
  uuid = read_key;
}

abbrev image : Text → ImageIdentity
image version = record {
  repository = codes "app";
  version = version;
  digest = codes "sha256:1";
  image_id = codes "1";
  tags = codes "latest" ∷ [];
  rollback_alias = [];
  published_at = some 5;
}

abbrev migration : UpdateTask
migration = record {
  id = 7;
  original = image (codes "v1.2.3");
  target = image (codes "v1.3.0");
  stage = migrating;
  created_at = 6;
  started_at = some 6;
  finished_at = none;
  database_backup = codes "a";
  uploads_backup = codes "b";
  rolled_back = false;
  cleanup = not_run;
  cleanup_journal = some (record {
    on_version_tag = completed;
    on_rollback_alias = started;
    on_image_id = not_started;
  });
  error_code = [];
  error_message = [];
}

abbrev updating : PersistentState
updating = record { last_check = none; task = some migration }

updating-is_valid : is_valid updating ≡ true
unfolding is_valid version_key expect read_number read_digits
updating-is_valid = refl

state_from_dict-state_to_dict_example :
    state_from_dict short (state_to_dict short updating) ≡ ok updating
state_from_dict-state_to_dict_example =
    state_from_dict-state_to_dict short (λ t. refl) (λ k. refl) updating updating-is_valid

state_from_dict-is_valid_example : is_valid updating ≡ true
state_from_dict-is_valid_example =
    state_from_dict-is_valid short (state_to_dict short updating) updating
      state_from_dict-state_to_dict_example

-- A journal whose last step is done before the first.
journal_from_dict-disordered :
    journal_from_dict (
      journal_to_dict (record {
        on_version_tag = not_started;
        on_rollback_alias = not_started;
        on_image_id = completed;
      }))
    ≡ err invalid_state
unfolding journal_from_dict
journal_from_dict-disordered = refl

-- A state without its task.
state_from_dict-incomplete :
    state_from_dict short (json_object (field (codes "last_check") json_null end_object))
    ≡ err invalid_state
unfolding state_from_dict
state_from_dict-incomplete = refl

abbrev one_state : JsonText
one_state = record { dumps = λ v. 1 ∷ []; loads = λ payload. some (state_to_dict short updating) }

abbrev is_sync : Step → Bool
is_sync sync_directory = true
is_sync step = false

-- The directory does not exist, and its last synchronization fails.
abbrev failing : Kernel
failing = record { fails = is_sync; default_mode = 493; identity = 3 }

abbrev empty : Disk
empty = record { parent = missing; file = missing }

save-Kept_example :
    Kept short one_state failing updating empty (save short one_state failing updating empty)
save-Kept_example =
    save-Kept short one_state (λ t. refl) (λ k. refl) updating refl updating-is_valid failing empty
      refl refl

abbrev is_chmod : Step → Bool
is_chmod chmod_directory = true
is_chmod step = false

-- The directory is made, and stays as it is by default: no state is read from it.
save-half_made :
    next_load short one_state
      (save short one_state (record failing { fails = is_chmod }) updating empty).0
    ≡ err unsafe_state_path
unfolding save atomic_private_replace load
save-half_made = refl

-- An update that failed with a code that is not for the public.
abbrev broken : PersistentState
broken = record {
  last_check = none;
  task = some (record migration {
    stage = failed;
    error_code = codes "disk_full";
    error_message = codes "/dev/sda";
  });
}

abbrev idle : Platform
idle = record {
  inspected = λ calls. ok (image (codes "v1.2.3"));
  stable = λ calls. err [];
  backups = λ calls. err [];
  tagged = λ t calls. err [];
  performed = λ call calls. err [];
  now = λ calls. 0;
}

status-bare_state_example :
    (sent short (status idle (record { state = bare_state broken; calls = [] })).1
      ≡ sent short (status idle (record { state = broken; calls = [] })).1)
    × ShowsMessage (status idle (record { state = broken; calls = [] })).1
status-bare_state_example = status-bare_state short idle broken []
