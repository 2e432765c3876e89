-- ===== src/Imports/Rows.antt =====
-- The rows that a parser returns (apps/imports/types.py), the tables of a batch (`ImportBatch`,
-- `SourceFile` and `StagedRow` of apps/imports/models.py), and what staging makes of a row. A field
-- that the dataclass annotates as a string is one; one of the choices may also be any other text.
use finance_reconciliation.Prelude.{
  ℕ, ◌+◌, ◌-◌, ◌*◌, ◌/◌, Bool, true, false, ◌&&◌, Option, none, some, List, ◌==◌,
}
use finance_reconciliation.Prelude.Int.{ℤ, pos, negsuc, pos_part, neg_part, sub_ℕ}
use finance_reconciliation.Prelude.Text.{Text, text_eq}
use finance_reconciliation.Money.Amount.{
  Amount, decimal, nan, infinity, integer, foreign, units_per_cent,
}
use finance_reconciliation.Ledger.{
  InvoiceDirection, InvoiceStatus, normal, void, red, MoneyChannel, MoneyDirection, day_length,
}
use finance_reconciliation.Imports.Coverage.{SourceKind}

-- A text that should be one of a type's choices.
pub data Choice (A : Type 0) : Type 0 where
  known : A → Choice A
  unknown : Text → Choice A

-- What stands for a day: a `date`, by its number, or anything else.
pub data DayValue : Type 0 where
  date : ℕ → DayValue
  no_date : DayValue

-- What stands for an instant: a `datetime` with a time zone (the instant in UTC, and how far its clock
-- is ahead), one without, or anything else.
pub data InstantValue : Type 0 where
  aware : ℕ → ℤ → InstantValue
  naive : ℕ → InstantValue
  no_datetime : InstantValue

pub record NormalizedInvoiceRow : Type 0 where
  pub direction : Choice InvoiceDirection
  pub invoice_number : Text
  pub seller_tax_id : Text
  pub seller_name : Text
  pub buyer_tax_id : Text
  pub buyer_name : Text
  pub issue_date : DayValue
  pub total_amount : Amount
  pub status : Choice InvoiceStatus

pub record NormalizedTransactionRow : Type 0 where
  pub channel : Choice MoneyChannel
  pub direction : Choice MoneyDirection
  pub occurred_at : InstantValue
  pub amount : Amount
  pub balance_after : Option Amount
  pub account_identifier : Text
  pub counterparty_name : Text
  pub counterparty_account : Text
  pub transaction_id : Text
  pub summary : Text

pub data Normalized : Type 0 where
  invoice : NormalizedInvoiceRow → Normalized
  money : NormalizedTransactionRow → Normalized

-- `RowIssue`, by its code, field and message.
pub data RowIssue : Type 0 where
  -- what a parser reports, by its code
  parser_issue : Text → RowIssue
  raw_data_issue not_normalized source_kind_mismatch : RowIssue
  bad_direction no_invoice_number no_seller_tax_id no_buyer_tax_id bad_date bad_amount bad_status :
      RowIssue
  bad_channel bad_datetime : RowIssue
  no_counterparty counterparty_ambiguous no_account account_ambiguous : RowIssue
  -- the two messages of `_invoice_conflict_issue`
  invoice_restored invoice_conflict : RowIssue

-- The cells of a row as they were read, by an opaque number: JSON can hold them, or cannot.
pub data RawData : Type 0 where
  json_value : ℕ → RawData
  no_json : ℕ → RawData

pub record ParsedRow : Type 0 where
  pub row_number : ℕ
  pub raw_data : RawData
  pub normalized : Option Normalized
  pub issues : List RowIssue

pub data BatchStatus : Type 0 where
  uploaded previewed partial completed : BatchStatus

pub record ImportBatch : Type 0 where
  pub id : ℕ
  pub source_kind : SourceKind
  pub status : BatchStatus
  pub total_rows : ℕ
  pub valid_rows : ℕ
  pub duplicate_rows : ℕ
  pub error_rows : ℕ
  pub period_start : Option ℕ
  pub period_end : Option ℕ
  pub created_by : Option ℕ
  pub confirmed_at : Option ℕ

pub record SourceFile : Type 0 where
  pub batch : ℕ
  pub original_name : Text
  pub sha256 : Text
  pub size : ℕ

-- `normalized_data` is `none` for `{}`.
pub record StagedRow : Type 0 where
  pub batch : ℕ
  pub row_number : ℕ
  pub raw_data : RawData
  pub normalized_data : Option Normalized
  pub issues : List RowIssue
  pub is_duplicate : Bool
  pub posted_at : Option ℕ

-- The units of 10 ^ -28 in one.
abbrev pub units_per_one : ℕ
units_per_one = units_per_cent * 100

abbrev pub times_one : ℤ → ℤ
times_one z = sub_ℕ (pos_part z * units_per_one) (neg_part z * units_per_one)

-- `Decimal(value)`; what is no number keeps its place, since the callers have tested for it.
abbrev pub as_decimal : Amount → Amount
as_decimal (integer z) = decimal (times_one z)
as_decimal (decimal z) = decimal z
as_decimal nan = nan
as_decimal (infinity b) = infinity b
as_decimal foreign = foreign

-- `existing == Decimal(value)`, of cents from the database.
abbrev pub is_cents_of : ℕ → Amount → Bool
is_cents_of cents (decimal (pos u)) = cents * units_per_cent == u
is_cents_of cents (decimal (negsuc n)) = false
is_cents_of cents nan = false
is_cents_of cents (infinity b) = false
is_cents_of cents (integer z) = cents == pos_part z * 100 && neg_part z == 0
is_cents_of cents foreign = false

abbrev pub as_decimal? : Option Amount → Option Amount
as_decimal? none = none
as_decimal? (some a) = some (as_decimal a)

-- `_serialize_normalized`. Dates, instants and decimals are stored as texts that read back as the same
-- values, so that `_deserialize_normalized` returns what is stored here.
unfoldable pub serialize_normalized : Normalized → Normalized
serialize_normalized (invoice r) = invoice (record r { total_amount = as_decimal r.total_amount })
serialize_normalized (money r) =
    money (record r { amount = as_decimal r.amount; balance_after = as_decimal? r.balance_after })

-- `occurred_at.date()`, on the row's own clock.
abbrev pub own_date : InstantValue → Option ℕ
own_date (aware t ahead) = some ((t + pos_part ahead - neg_part ahead) / day_length)
own_date (naive t) = some (t / day_length)
own_date no_datetime = none

abbrev pub day_of : DayValue → Option ℕ
day_of (date d) = some d
day_of no_date = none

-- The date that a row adds to `period_dates`.
abbrev pub period_date : Normalized → Option ℕ
period_date (invoice r) = day_of r.issue_date
period_date (money r) = own_date r.occurred_at

abbrev pub same_day : DayValue → DayValue → Bool
same_day (date a) (date b) = a == b
same_day (date a) no_date = false
same_day no_date (date b) = false
same_day no_date no_date = true

abbrev pub status_eq : InvoiceStatus → InvoiceStatus → Bool
status_eq normal normal = true
status_eq void void = true
status_eq red red = true
status_eq normal void = false
status_eq normal red = false
status_eq void normal = false
status_eq void red = false
status_eq red normal = false
status_eq red void = false

abbrev pub choice_eq : {A : Type 0} → (A → A → Bool) → Choice A → Choice A → Bool
choice_eq eq (known a) (known b) = eq a b
choice_eq eq (known a) (unknown t) = false
choice_eq eq (unknown s) (known b) = false
choice_eq eq (unknown s) (unknown t) = text_eq s t
