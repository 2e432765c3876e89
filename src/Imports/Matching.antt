-- ===== src/Imports/Matching.antt =====
-- Whom a row is mapped to by apps/imports/validation.py, over the tables of apps/parties/models.py and
-- `FundingAccount` of apps/ledger/models.py.
use finance_reconciliation.Prelude.{
  ℕ, Bool, true, false, not, ◌&&◌, ◌||◌, Option, none, some, List, [], ◌∷◌, any, ◌==◌, is_some,
  if◌then◌else◌,
}
use finance_reconciliation.Prelude.Text.{Text, text_eq, is_empty}
use finance_reconciliation.Ledger.{InvoiceDirection, input, output, MoneyChannel}
use finance_reconciliation.Imports.Rows.{
  Choice, known, unknown, NormalizedInvoiceRow, NormalizedTransactionRow,
}
use finance_reconciliation.Imports.Mapping.{TextLibrary, normalize_party_text}

pub record Counterparty : Type 0 where
  pub id : ℕ
  pub normalized_name : Text
  pub tax_id : Text
  pub is_customer : Bool
  pub is_supplier : Bool
  pub active : Bool

pub data AliasKind : Type 0 where
  name_alias bank_account wechat_name collection_account : AliasKind

pub record CounterpartyAlias : Type 0 where
  pub counterparty : ℕ
  pub kind : AliasKind
  pub normalized_value : Text

pub record FundingAccount : Type 0 where
  pub id : ℕ
  pub channel : MoneyChannel
  pub identifier : Text
  pub active : Bool

pub record Registers : Type 0 where
  pub counterparties : List Counterparty
  pub aliases : List CounterpartyAlias
  pub accounts : List FundingAccount

pub record MappingResult : Type 0 where
  pub value : Option ℕ
  pub ambiguous : Bool

-- `_single_match`, of the keys that a query finds.
unfoldable pub single_match : List ℕ → MappingResult
single_match [] = record { value = none; ambiguous = false }
single_match (k ∷ []) = record { value = some k; ambiguous = false }
single_match (k ∷ l ∷ more) = record { value = none; ambiguous = true }

-- A column of the rows that pass a test.
abbrev pub column_where : {A : Type 0} → (A → Bool) → (A → ℕ) → List A → List ℕ
column_where p f [] = []
column_where p f (x ∷ xs) = let rest = column_where p f xs in if p x then f x ∷ rest else rest

abbrev is_input : Choice InvoiceDirection → Bool
is_input (known input) = true
is_input (known output) = false
is_input (unknown t) = false

-- `resolve_invoice_counterparty`
unfoldable pub resolve_invoice_counterparty : NormalizedInvoiceRow → Registers → MappingResult
unfolding single_match
resolve_invoice_counterparty r registers =
    let tax_id = if is_input r.direction then r.seller_tax_id else r.buyer_tax_id in
    single_match (
      column_where
        (λ c.
          text_eq c.tax_id tax_id
          && c.active
          && (if is_input r.direction then c.is_supplier else c.is_customer))
        (λ c. c.id) registers.counterparties)

abbrev pub channel_eq : Choice MoneyChannel → MoneyChannel → Bool
channel_eq (known MoneyChannel.bank) MoneyChannel.bank = true
channel_eq (known MoneyChannel.wechat) MoneyChannel.wechat = true
channel_eq (known MoneyChannel.bank) MoneyChannel.wechat = false
channel_eq (known MoneyChannel.wechat) MoneyChannel.bank = false
channel_eq (unknown t) c = false

abbrev has_kind : Choice MoneyChannel → AliasKind → Bool
has_kind channel bank_account = channel_eq channel MoneyChannel.bank
has_kind channel wechat_name = not (channel_eq channel MoneyChannel.bank)
has_kind channel name_alias = false
has_kind channel collection_account = false

abbrev is_active_party : Registers → ℕ → Bool
is_active_party registers k = any (λ c. c.id == k && c.active) registers.counterparties

abbrev no_match : MappingResult
no_match = record { value = none; ambiguous = false }

abbrev by_alias : Registers → Choice MoneyChannel → Option Text → MappingResult
by_alias registers channel none = no_match
by_alias registers channel (some value) = single_match (
    column_where
      (λ a.
        has_kind channel a.kind
        && text_eq a.normalized_value value
        && is_active_party registers a.counterparty)
      (λ a. a.counterparty) registers.aliases)

module _ (library : TextLibrary) where
  abbrev by_name : NormalizedTransactionRow → Registers → Option Text → MappingResult
  by_name r registers none = no_match
  by_name r registers (some name) =
      let named = single_match (
        column_where (λ c. text_eq c.normalized_name name && c.active) (λ c. c.id)
          registers.counterparties) in
      let other =
        if is_empty r.counterparty_account then r.counterparty_name else r.counterparty_account in
      if is_some named.value || named.ambiguous
      then named
      else by_alias registers r.channel (normalize_party_text library other)

  -- `resolve_transaction_counterparty`
  unfoldable pub resolve_transaction_counterparty :
      NormalizedTransactionRow → Registers → MappingResult
  unfolding single_match normalize_party_text
  resolve_transaction_counterparty r registers =
      by_name r registers (normalize_party_text library r.counterparty_name)

-- `resolve_funding_account`
unfoldable pub resolve_funding_account : NormalizedTransactionRow → Registers → MappingResult
unfolding single_match
resolve_funding_account r registers = single_match (
    column_where
      (λ a. channel_eq r.channel a.channel && text_eq a.identifier r.account_identifier && a.active)
      (λ a. a.id) registers.accounts)
