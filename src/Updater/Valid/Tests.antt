-- ===== src/Updater/Valid/Tests.antt =====
-- A check, an update and its recovery, one after another, and an instance of the theorem.
use finance_reconciliation.Prelude.{ℕ, ◌≡◌, refl, Option, none, some, List, [], ◌∷◌}
use finance_reconciliation.Prelude.Text.{Text, codes}
use finance_reconciliation.Prelude.Outcome.{ok}
use finance_reconciliation.Updater.Types.{ImageIdentity}
use finance_reconciliation.Updater.Versions.{expect, read_number, read_digits, version_key}
use finance_reconciliation.Updater.Machine.{Platform}
use finance_reconciliation.Updater.State.Json.{Codec, Instant, utc}
use finance_reconciliation.Updater.State.Encode.{state_to_dict}
use finance_reconciliation.Updater.State.Decode.{state_from_dict}
use finance_reconciliation.Updater.Valid.Requests.{HasVersions}
use finance_reconciliation.Updater.Valid.Reached.{
  Operation, checks, starts, executes, recovers, reached, reached-readable,
}

abbrev image : Text → ImageIdentity
image version = record {
  repository = codes "app";
  version = version;
  digest = version;
  image_id = version;
  tags = version ∷ [];
  rollback_alias = [];
  published_at = none;
}

abbrev calm : Platform
calm = record {
  inspected = λ calls. ok (image (codes "v1.9.0"));
  stable = λ calls. ok (image (codes "v1.10.0"));
  backups = λ calls. ok (codes "db", codes "files");
  tagged = λ t calls. ok (codes "alias");
  performed = λ call calls. ok tt;
  now = λ calls. 1000;
}

calm-HasVersions : HasVersions calm
unfolding version_key expect read_number read_digits
calm-HasVersions = record { inspected_image = λ calls. refl; stable_image = λ calls. refl }

abbrev read_time : Text → Option Instant
read_time [] = none
read_time (t ∷ rest) = some (utc t)

abbrev read_key : Text → Option ℕ
read_key [] = none
read_key (k ∷ rest) = some k

-- A codec whose texts have one character.
abbrev short : Codec
short = record {
  isoformat = λ t. t ∷ [];
  fromisoformat = read_time;
  str_uuid = λ k. k ∷ [];
  uuid = read_key;
}

abbrev update : List Operation
update = recovers ∷ executes 7 ∷ starts (codes "v1.10.0") none 7 ∷ checks ∷ []

reached-readable_example :
    state_from_dict short (state_to_dict short (reached calm update).state)
    ≡ ok (reached calm update).state
reached-readable_example =
    reached-readable calm calm-HasVersions short (λ t. refl) (λ k. refl) update
