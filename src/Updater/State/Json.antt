-- ===== src/Updater/State/Json.antt =====
-- What `json.loads` returns, and the tests that updater/types.py makes of it. The standard library's
-- texts of time stamps and UUIDs are a parameter.
use finance_reconciliation.Prelude.{
  ℕ, Bool, true, false, ◌&&◌, ◌||◌, Option, none, some, List, [], ◌∷◌, any, all, if◌then◌else◌,
}
use finance_reconciliation.Prelude.Text.{Text, text_eq}
use finance_reconciliation.Prelude.Outcome.{Outcome, ok, err, guard, ◌>>=◌, ◌>>◌}

-- The keys of an object are different from one another; a number is opaque.
mutual
  pub data Json : Type 0 where
    json_null : Json
    json_bool : Bool → Json
    json_number : ℕ → Json
    json_text : Text → Json
    json_list : Items → Json
    json_object : Fields → Json

  pub data Items : Type 0 where
    end_list : Items
    item : Json → Items → Items

  pub data Fields : Type 0 where
    end_object : Fields
    field : Text → Json → Fields → Fields

-- A `datetime` that was read: in UTC, or naive or of another offset.
pub data Instant : Type 0 where
  utc : ℕ → Instant
  not_utc : Instant

-- `isoformat` of an instant in UTC, `datetime.fromisoformat`, `str` of a UUID, and `UUID` of a text;
-- `none` is a `ValueError`.
pub record Codec : Type 0 where
  pub isoformat : ℕ → Text
  pub fromisoformat : Text → Option Instant
  pub str_uuid : ℕ → Text
  pub uuid : Text → Option ℕ

-- `ValueError` by its message, and the `TypeError` of a time stamp that is no text.
pub data StateError : Type 0 where
  invalid_state invalid_version invalid_timestamp timestamp_must_be_utc timestamp_no_text :
      StateError

abbrev pub Read : Type 0 → Type 0
Read A = Outcome StateError A

-- `key in payload`
abbrev pub has_key : Text → Fields → Bool
has_key k end_object = false
has_key k (field j v fields) = text_eq k j || has_key k fields

-- `payload.get(key)`; after `_require_exact_keys` no key is missing.
abbrev pub get : Text → Fields → Json
get k end_object = json_null
get k (field j v fields) = let rest = get k fields in if text_eq k j then v else rest

abbrev pub keys_within : List Text → Fields → Bool
keys_within expected end_object = true
keys_within expected (field j v fields) =
    any (λ k. text_eq k j) expected && keys_within expected fields

-- `set(payload) == expected`
abbrev pub has_exactly : List Text → Fields → Bool
has_exactly expected fields = all (λ k. has_key k fields) expected && keys_within expected fields

-- `_require_exact_keys`
unfoldable pub require_exact_keys : Json → List Text → Read Fields
require_exact_keys (json_object fields) expected =
    guard (has_exactly expected fields) invalid_state >> ok fields
require_exact_keys json_null expected = err invalid_state
require_exact_keys (json_bool b) expected = err invalid_state
require_exact_keys (json_number n) expected = err invalid_state
require_exact_keys (json_text t) expected = err invalid_state
require_exact_keys (json_list items) expected = err invalid_state

-- The tests `isinstance(value, str)` and `type(value) is bool`, with the value.
abbrev pub as_text : Json → Read Text
as_text (json_text t) = ok t
as_text json_null = err invalid_state
as_text (json_bool b) = err invalid_state
as_text (json_number n) = err invalid_state
as_text (json_list items) = err invalid_state
as_text (json_object fields) = err invalid_state

abbrev pub as_bool : Json → Read Bool
as_bool (json_bool b) = ok b
as_bool json_null = err invalid_state
as_bool (json_number n) = err invalid_state
as_bool (json_text t) = err invalid_state
as_bool (json_list items) = err invalid_state
as_bool (json_object fields) = err invalid_state

abbrev pub texts_of : Items → Read (List Text)
texts_of end_list = ok []
texts_of (item v items) = let rest = texts_of items in as_text v >>= λ t. rest >>= λ ts. ok (t ∷ ts)

-- A list of texts.
abbrev pub as_texts : Json → Read (List Text)
as_texts (json_list items) = texts_of items
as_texts json_null = err invalid_state
as_texts (json_bool b) = err invalid_state
as_texts (json_number n) = err invalid_state
as_texts (json_text t) = err invalid_state
as_texts (json_object fields) = err invalid_state

abbrev pub json_texts : List Text → Items
json_texts [] = end_list
json_texts (t ∷ ts) = item (json_text t) (json_texts ts)

abbrev pub is_null : Json → Bool
is_null json_null = true
is_null (json_bool b) = false
is_null (json_number n) = false
is_null (json_text t) = false
is_null (json_list items) = false
is_null (json_object fields) = false

-- A value that may be `None`, else read by `read`.
abbrev pub nullable : {A : Type 0} → (Json → Read A) → Json → Read (Option A)
nullable read v = let found = read v >>= λ a. ok (some a) in if is_null v then ok none else found

module _ (codec : Codec) where
  -- `_validate_utc` of what was parsed.
  abbrev in_utc : Option Instant → Read ℕ
  in_utc none = err invalid_timestamp
  in_utc (some not_utc) = err timestamp_must_be_utc
  in_utc (some (utc t)) = ok t

  -- `_datetime_from_dict`
  unfoldable pub datetime_from_dict : Json → Read ℕ
  datetime_from_dict (json_text t) = in_utc (codec.fromisoformat t)
  datetime_from_dict json_null = err timestamp_no_text
  datetime_from_dict (json_bool b) = err timestamp_no_text
  datetime_from_dict (json_number n) = err timestamp_no_text
  datetime_from_dict (json_list items) = err timestamp_no_text
  datetime_from_dict (json_object fields) = err timestamp_no_text

  -- `_datetime_to_dict`; a time stamp of the model is in UTC.
  abbrev pub datetime_to_dict : Option ℕ → Json
  datetime_to_dict none = json_null
  datetime_to_dict (some t) = json_text (codec.isoformat t)
