-- ===== src/Imports/Scene.antt =====
-- A bank statement of three rows, one of them twice, for the tests of the imports.
use finance_reconciliation.Prelude.{ℕ, ◌*◌, ◌/◌, true, false, Option, none, some, [], ◌∷◌}
use finance_reconciliation.Prelude.Int.{ℤ, pos, negsuc, pos_part}
use finance_reconciliation.Prelude.Text.{Text, codes}
use finance_reconciliation.Money.Amount.{
  Amount, decimal, nan, infinity, integer, foreign, units_per_cent,
}
use finance_reconciliation.Accounts.Roles.{finance, business, Actor}
use finance_reconciliation.Ledger.{
  MoneyChannel, inflow, input, normal, red, InvoiceStatus, day_length,
}
use finance_reconciliation.Imports.Coverage.{SourceKind, input_invoice}
use finance_reconciliation.Imports.Rows.{
  known, aware, date, Normalized, invoice, money, json_value, ParsedRow,
}
use finance_reconciliation.Imports.Mapping.{TextLibrary}
use finance_reconciliation.Imports.Matching.{Counterparty}
use finance_reconciliation.Imports.Tables.{Books, Tables, Surroundings, ok}
use finance_reconciliation.Imports.Staging.Prepare.{ParserOutput, finished, yields}
use finance_reconciliation.Imports.Staging.Files.{Importer, Upload}

abbrev pub plain : TextLibrary
plain = record {
  nfkc = λ t. t;
  casefold = λ t. t;
  isoformat = λ t. t ∷ [];
  fixed = λ z. pos_part z ∷ [];
  sha256 = λ t. t;
}

abbrev pub exact : Amount → Option ℤ
exact (decimal (pos u)) = some (pos (u / units_per_cent))
exact (decimal (negsuc n)) = none
exact (integer z) = none
exact nan = none
exact (infinity b) = none
exact foreign = none

abbrev pub alone : Surroundings
alone = record {
  library = plain;
  column = exact;
  before_read = λ n b. b;
  before_write = λ n b. b;
  before_snapshot = λ n s. s;
}

abbrev pub clerk : Actor
clerk = record { is_user = true; pk = some 1; adding = false }

abbrev pub shop : Counterparty
shop = record {
  id = 7;
  normalized_name = codes "shop";
  tax_id = codes "T7";
  is_customer = true;
  is_supplier = true;
  active = true;
}

abbrev pub no_books : Books
no_books = record { invoices = []; transactions = [] }

abbrev pub start : Tables
start = record {
  directory = record { users = 1 ∷ []; memberships = (1, business finance) ∷ [] };
  registers = record {
    counterparties = shop ∷ [];
    aliases = [];
    accounts =
        record { id = 5; channel = MoneyChannel.bank; identifier = codes "62"; active = true } ∷ [];
  };
  files = [];
  batches = [];
  rows = [];
  books = no_books;
  snapshots = [];
  audit = [];
}

abbrev pub cents : ℕ → Amount
cents n = decimal (pos (n * units_per_cent))

abbrev pub payment : Text → ℕ → ℕ → Normalized
payment id t balance = money (record {
  channel = known MoneyChannel.bank;
  direction = known inflow;
  occurred_at = aware t (pos 0);
  amount = cents 10000;
  balance_after = some (cents balance);
  account_identifier = codes "62";
  counterparty_name = codes "shop";
  counterparty_account = [];
  transaction_id = id;
  summary = [];
})

abbrev pub row : ℕ → Normalized → ParsedRow
row n r = record { row_number = n; raw_data = json_value n; normalized = some r; issues = [] }

-- The second row repeats the first.
abbrev pub statement : ParserOutput
statement = yields (row 1 (payment (codes "A") day_length 50000)) (
    yields (row 2 (payment (codes "A") day_length 50000))
      (yields (row 3 (payment (codes "B") (2 * day_length) 60000)) finished))

abbrev pub bank_importer : Importer
bank_importer = record {
  source_kinds = SourceKind.bank ∷ [];
  supports = λ name headers. true;
  parse = statement;
  infer_source_kind = none;
}

abbrev pub bought : InvoiceStatus → Normalized
bought status = invoice (record {
  direction = known input;
  invoice_number = codes "N1";
  seller_tax_id = codes "T7";
  seller_name = codes "shop";
  buyer_tax_id = codes "T1";
  buyer_name = codes "us";
  issue_date = date 3;
  total_amount = cents 12345;
  status = known status;
})

-- An invoice, and its reversal in the same file.
abbrev pub invoice_importer : Importer
invoice_importer = record {
  source_kinds = input_invoice ∷ [];
  supports = λ name headers. true;
  parse = yields (row 1 (bought normal)) (yields (row 2 (bought red)) finished);
  infer_source_kind = none;
}

abbrev pub upload : Upload
upload = record {
  name = codes "a.xls";
  is_accepted = true;
  sha256 = codes "00";
  headers = ok [];
  size = 10;
}
