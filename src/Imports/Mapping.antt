-- ===== src/Imports/Mapping.antt =====
-- apps/imports/fingerprints.py, apps/parties/normalization.py, and how apps/imports/validation.py finds
-- the counterparty and the funding account of a row. What Unicode, SHA-256 and the text forms of an
-- instant and of an amount come to is a parameter.
use finance_reconciliation.Prelude.{
  ℕ, ◌+◌, ◌-◌, Bool, true, false, ◌&&◌, Option, none, some, List, [], ◌∷◌, ◌++◌, ltb, ◌==◌,
  if◌then◌else◌,
}
use finance_reconciliation.Prelude.Int.{ℤ, pos, negsuc}
use finance_reconciliation.Prelude.Text.{Text, codes, is_empty, is_space}
use finance_reconciliation.Money.Amount.{
  Amount, decimal, nan, infinity, integer, foreign, round_cents, max_coefficient,
}
use finance_reconciliation.Ledger.{MoneyChannel, bank, wechat, MoneyDirection, inflow, outflow}
use finance_reconciliation.Imports.Rows.{
  Choice, known, unknown, InstantValue, aware, naive, no_datetime, NormalizedTransactionRow,
  as_decimal,
}

-- `unicodedata.normalize("NFKC", …)`, `str.casefold`, `isoformat` of an instant in UTC,
-- `format(amount, "f")` of so many cents, and the digest of a text.
pub record TextLibrary : Type 0 where
  pub nfkc : Text → Text
  pub casefold : Text → Text
  pub isoformat : ℕ → Text
  pub fixed : ℤ → Text
  pub sha256 : Text → Text

-- `" ".join(text.split())`: `gap` says that a space is due before the next word, `begun` that a word
-- stands before.
unfoldable pub join_words : Bool → Bool → Text → Text
unfolding is_space
join_words begun gap [] = []
join_words begun gap (c ∷ cs) =
    let in_space = join_words begun true cs in
    let in_word = join_words true false cs in
    if is_space c then in_space else if begun && gap then 32 ∷ c ∷ in_word else c ∷ in_word

abbrev pub choice_text : {A : Type 0} → (A → Text) → Choice A → Text
choice_text name (known a) = name a
choice_text name (unknown t) = t

abbrev pub channel_name : MoneyChannel → Text
channel_name bank = codes "bank"
channel_name wechat = codes "wechat"

abbrev pub direction_name : MoneyDirection → Text
direction_name inflow = codes "inflow"
direction_name outflow = codes "outflow"

-- `Decimal(amount).quantize(Decimal("0.01"))` in cents; `none` where it raises.
unfoldable pub quantized : Amount → Option ℤ
unfolding round_cents
quantized (decimal (pos u)) =
    if ltb max_coefficient (round_cents u) then none else some (pos (round_cents u))
quantized (decimal (negsuc n)) =
    let cents = round_cents (n + 1) in
    if ltb max_coefficient cents
    then none
    else if cents == 0
    then some (pos 0)
    else some (negsuc (cents - 1))
quantized (integer z) = none
quantized nan = none
quantized (infinity b) = none
quantized foreign = none

abbrev pub utc_instant : InstantValue → Option ℕ
utc_instant (aware t ahead) = some t
utc_instant (naive t) = none
utc_instant no_datetime = none

-- `"\x1f".join(fields)`
abbrev pub join_fields : List Text → Text
join_fields [] = []
join_fields (f ∷ []) = f
join_fields (f ∷ g ∷ fields) = f ++ 31 ∷ join_fields (g ∷ fields)

module _ (library : TextLibrary) where
  -- `_canonical_text`
  unfoldable pub canonical_text : Text → Text
  unfolding join_words
  canonical_text value = library.casefold (join_words false false (library.nfkc value))

  -- `normalize_party_text`; `none` where it raises.
  unfoldable pub normalize_party_text : Text → Option Text
  unfolding canonical_text
  normalize_party_text value =
      let normalized = canonical_text value in if is_empty normalized then none else some normalized

  -- The fields that make up the fingerprint of a row, with its instant and its amount.
  unfoldable pub fingerprint_fields : NormalizedTransactionRow → ℕ → ℤ → List Text
  unfolding canonical_text
  fingerprint_fields r t cents =
      let transaction_id = canonical_text r.transaction_id in
      if is_empty transaction_id
      then codes "fallback"
        ∷ canonical_text (choice_text channel_name r.channel)
        ∷ canonical_text r.account_identifier
        ∷ library.isoformat t
        ∷ canonical_text (choice_text direction_name r.direction)
        ∷ library.fixed cents
        ∷ canonical_text r.counterparty_name
        ∷ canonical_text r.counterparty_account
        ∷ []
      else codes "transaction-id"
        ∷ canonical_text (choice_text channel_name r.channel)
        ∷ canonical_text r.account_identifier
        ∷ transaction_id
        ∷ []

  abbrev pub fingerprint_at : NormalizedTransactionRow → Option ℕ → Option ℤ → Option Text
  fingerprint_at r none cents = none
  fingerprint_at r (some t) none = none
  fingerprint_at r (some t) (some cents) =
      some (library.sha256 (join_fields (fingerprint_fields r t cents)))

  -- `transaction_fingerprint`; `none` where it raises `ValueError`.
  unfoldable pub transaction_fingerprint : NormalizedTransactionRow → Option Text
  unfolding fingerprint_fields quantized
  transaction_fingerprint r =
      fingerprint_at r (utc_instant r.occurred_at) (quantized (as_decimal r.amount))
