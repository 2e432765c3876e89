-- ===== src/Ledger.antt =====
-- apps/ledger/choices.py and apps/ledger/models.py: invoices, movements of money, and the days and
-- instants at which they stand. An identifier (a UUID) is a number, since it is only compared.
use finance_reconciliation.Prelude.{ℕ, ◌+◌, ◌/◌, Bool, true, false, Option}
use finance_reconciliation.Prelude.Int.{ℤ}
use finance_reconciliation.Prelude.Text.{Text}

pub data InvoiceDirection : Type 0 where
  input output : InvoiceDirection

pub data InvoiceStatus : Type 0 where
  normal void red : InvoiceStatus

pub data MoneyChannel : Type 0 where
  bank wechat : MoneyChannel

pub data MoneyDirection : Type 0 where
  inflow outflow : MoneyDirection

abbrev pub invoice_direction_eq : InvoiceDirection → InvoiceDirection → Bool
invoice_direction_eq input input = true
invoice_direction_eq output output = true
invoice_direction_eq input output = false
invoice_direction_eq output input = false

abbrev pub money_direction_eq : MoneyDirection → MoneyDirection → Bool
money_direction_eq inflow inflow = true
money_direction_eq outflow outflow = true
money_direction_eq inflow outflow = false
money_direction_eq outflow inflow = false

abbrev pub is_normal : InvoiceStatus → Bool
is_normal normal = true
is_normal void = false
is_normal red = false

-- A day is a number of days. An instant is a number of microseconds from the same origin, in UTC.
abbrev pub day_length : ℕ
day_length = 86400000000

-- `settings.TIME_ZONE` is Asia/Shanghai: eight hours ahead of UTC.
abbrev pub local_offset : ℕ
local_offset = 28800000000

-- `occurred_at.date()`, of an instant as the database returns it: in UTC.
unfoldable pub utc_date : ℕ → ℕ
utc_date t = t / day_length

-- `occurred_at__date` in a query: in the current time zone.
unfoldable pub local_date : ℕ → ℕ
local_date t = (t + local_offset) / day_length

pub record Invoice : Type 0 where
  pub id : ℕ
  pub direction : InvoiceDirection
  pub invoice_number : Text
  pub seller_tax_id : Text
  pub buyer_tax_id : Text
  pub issue_date : ℕ
  -- in cents, as every amount in the database
  pub total_amount : ℕ
  pub status : InvoiceStatus
  pub counterparty : ℕ
  pub import_batch : ℕ
  pub source_row : ℕ

pub record MoneyTransaction : Type 0 where
  pub id : ℕ
  pub account : ℕ
  pub channel : MoneyChannel
  pub direction : MoneyDirection
  pub occurred_at : ℕ
  pub amount : ℕ
  pub balance_after : Option ℤ
  pub transaction_id : Text
  pub fingerprint : Text
  pub counterparty : Option ℕ
  pub import_batch : ℕ
  pub source_row : ℕ
