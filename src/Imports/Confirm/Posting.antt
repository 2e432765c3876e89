-- ===== src/Imports/Confirm/Posting.antt =====
-- The loop of `confirm_batch` of apps/imports/services.py over the staged rows: `_post_normalized_row`,
-- `_mark_duplicate`, `_mark_invoice_conflict` and `_update_invoice_status`.
use finance_reconciliation.Prelude.{
  ℕ, ◌+◌, Bool, true, false, not, ◌&&◌, Option, none, some, List, [], ◌∷◌, ◌++◌, ◌==◌, is_some,
  if◌then◌else◌,
}
use finance_reconciliation.Accounts.Roles.{Actor}
use finance_reconciliation.Ledger.{Invoice, InvoiceStatus}
use finance_reconciliation.Imports.Rows.{
  known, NormalizedInvoiceRow, NormalizedTransactionRow, Normalized, invoice, money, ImportBatch,
  StagedRow, day_of,
}
use finance_reconciliation.Imports.Mapping.{utc_instant}
use finance_reconciliation.Imports.Matching.{
  resolve_invoice_counterparty, resolve_transaction_counterparty, resolve_funding_account,
}
use finance_reconciliation.Imports.Tables.{
  ok, err, or_raise, ◌>>=◌, key_error, no_such_party, no_such_account, integrity_error, data_error,
  Result, invoice_status_changed, Books, Tables, Surroundings,
}
use finance_reconciliation.Imports.Staging.Prepare.{status_of}
use finance_reconciliation.Imports.Disposition.{
  Disposition, new, duplicate, conflict, status_update, invoice_conflict_issue, fingerprint,
  formal_disposition_for,
}
use finance_reconciliation.Imports.Confirm.Insertions.{
  Insertion, Posting, add_invoice, add_transaction, column?, inserted, known_of, or_zero,
  positive_cents, refused, set_status,
}

module _ (w : Surroundings) (db : Tables) (batch : ImportBatch) (actor : Actor)
    (fresh now : ℕ) where
  -- `Invoice.objects.create(…)` of `_post_normalized_row`.
  abbrev pub post_invoice : StagedRow → NormalizedInvoiceRow → Books → Result Insertion
  post_invoice row r books = do
    party ← or_raise (resolve_invoice_counterparty r db.registers).value no_such_party
    direction ← or_raise (known_of r.direction) data_error
    status ← or_raise (known_of r.status) data_error
    day ← or_raise (day_of r.issue_date) data_error
    cents ← or_raise (w.column r.total_amount) data_error
    ok (
        add_invoice books r
          (record {
            id = fresh + row.row_number;
            direction = direction;
            invoice_number = r.invoice_number;
            seller_tax_id = r.seller_tax_id;
            buyer_tax_id = r.buyer_tax_id;
            issue_date = day;
            total_amount = or_zero (positive_cents cents);
            status = status;
            counterparty = party;
            import_batch = batch.id;
            source_row = row.row_number;
          })
          (positive_cents cents))

  -- `MoneyTransaction.objects.create(…)` of `_post_normalized_row`.
  abbrev pub post_transaction : StagedRow → NormalizedTransactionRow → Books → Result Insertion
  post_transaction row r books = do
    account ← or_raise (resolve_funding_account r db.registers).value no_such_account
    party ← or_raise (resolve_transaction_counterparty w.library r db.registers).value no_such_party
    print ← fingerprint w.library r
    channel ← or_raise (known_of r.channel) data_error
    direction ← or_raise (known_of r.direction) data_error
    t ← or_raise (utc_instant r.occurred_at) data_error
    cents ← or_raise (w.column r.amount) data_error
    balance ← or_raise (column? w.column r.balance_after) data_error
    ok (
        add_transaction books
          (record {
            id = fresh + row.row_number;
            account = account;
            channel = channel;
            direction = direction;
            occurred_at = t;
            amount = or_zero (positive_cents cents);
            balance_after = balance;
            transaction_id = r.transaction_id;
            fingerprint = print;
            counterparty = some party;
            import_batch = batch.id;
            source_row = row.row_number;
          })
          (positive_cents cents))

  -- `_post_normalized_row`; the keys of the new records are drawn from `fresh` on.
  unfoldable pub post_normalized_row : StagedRow → Normalized → Books → Result Insertion
  post_normalized_row row (invoice r) books = post_invoice row r books
  post_normalized_row row (money r) books = post_transaction row r books

  -- `row.posted_at = timezone.now()`
  abbrev pub posted : StagedRow → StagedRow
  posted row = record row { posted_at = some now }

  -- `_mark_duplicate`
  unfoldable pub mark_duplicate : StagedRow → Posting → StagedRow × Posting
  mark_duplicate row p =
      (record row { is_duplicate = true }, record p { new_duplicates = p.new_duplicates + 1 })

  -- `_mark_invoice_conflict`
  unfoldable pub mark_invoice_conflict :
      StagedRow → Normalized → Invoice → Posting → StagedRow × Posting
  mark_invoice_conflict row r existing p = (
    record row { issues = invoice_conflict_issue (known existing.status) (status_of r) ∷ [] },
    record p { new_errors = p.new_errors + 1 },
  )

  -- `_update_invoice_status`, and the row is posted.
  unfoldable pub update_invoice_status :
      StagedRow → Invoice → InvoiceStatus → Posting → StagedRow × Posting
  update_invoice_status row existing status p = (
    posted row,
    record p {
      books = record (p.books) { invoices = set_status existing.id status p.books.invoices };
      log =
          p.log
          ++ record {
            actor = actor.pk;
            action = invoice_status_changed existing.status status batch.id row.row_number;
            target_id = existing.id;
          }
            ∷ [];
    },
  )

  -- What the loop does for each disposition but `new`, which is raised again; a conflict and a status
  -- update always come with the existing invoice.
  unfoldable pub settle_row :
      StagedRow → Normalized → Disposition × Option Invoice → Posting → Result (StagedRow × Posting)
  unfolding mark_duplicate mark_invoice_conflict update_invoice_status
  settle_row row r (duplicate, existing) p = ok (mark_duplicate row p)
  settle_row row r (conflict, some existing) p = ok (mark_invoice_conflict row r existing p)
  settle_row row r (conflict, none) p = err integrity_error
  settle_row row r (status_update, some existing) p = do
    status ← or_raise (known_of (status_of r)) data_error
    ok (update_invoice_status row existing status p)
  settle_row row r (status_update, none) p = err integrity_error
  settle_row row r (new, existing) p = err integrity_error

  -- After the savepoint: the row is in, or the `IntegrityError` is resolved by a second look.
  abbrev pub after_insertion :
      StagedRow → Normalized → Posting → Insertion → Result (StagedRow × Posting)
  after_insertion row r p (inserted books) = ok (posted row, record p { books = books })
  after_insertion row r p refused = do
    found ← formal_disposition_for w.library db.rows p.books r
    settle_row row r found p

  abbrev pub insert_new : StagedRow → Normalized → Posting → Result (StagedRow × Posting)
  insert_new row r p = do
    let p = record p { books = w.before_write row.row_number p.books }
    insertion ← post_normalized_row row r p.books
    after_insertion row r p insertion

  abbrev pub dispatch :
      StagedRow → Normalized → Disposition × Option Invoice → Posting → Result (StagedRow × Posting)
  dispatch row r (new, existing) p = insert_new row r p
  dispatch row r (duplicate, existing) p = settle_row row r (duplicate, existing) p
  dispatch row r (conflict, existing) p = settle_row row r (conflict, existing) p
  dispatch row r (status_update, existing) p = settle_row row r (status_update, existing) p

  -- One turn of the loop.
  unfoldable pub confirm_row : StagedRow → Posting → Result (StagedRow × Posting)
  unfolding settle_row post_normalized_row formal_disposition_for
  confirm_row row p = do
    r ← or_raise row.normalized_data key_error
    let p = record p { books = w.before_read row.row_number p.books }
    found ← formal_disposition_for w.library db.rows p.books r
    dispatch row r found p

  abbrev pub has_issues : StagedRow → Bool
  has_issues row = elim row.issues [ [] ↦ false | issue ∷ issues ↦ true ]

  -- The rows that the query finds and that have no issues.
  abbrev pub is_pending : StagedRow → Bool
  is_pending row =
      row.batch == batch.id
      && not (is_some row.posted_at)
      && not row.is_duplicate
      && not (has_issues row)

  abbrev pub turn : StagedRow → Posting → Result (StagedRow × Posting)
  turn row p = if is_pending row then confirm_row row p else ok (row, p)

  -- The loop, over the table of staged rows.
  unfoldable pub confirm_rows : List StagedRow → Posting → Result (List StagedRow × Posting)
  unfolding confirm_row
  confirm_rows [] p = ok ([], p)
  confirm_rows (row ∷ rows) p = do
    (row₁, p₁) ← turn row p
    (rows₁, p₂) ← confirm_rows rows p₁
    ok (row₁ ∷ rows₁, p₂)
