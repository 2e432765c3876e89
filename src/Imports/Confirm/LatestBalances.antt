-- ===== src/Imports/Confirm/LatestBalances.antt =====
-- The loop of `_create_balance_snapshots` of apps/imports/services.py over the rows of a statement, as it
-- is for one account.
use finance_reconciliation.Prelude.{
  ℕ, ◌≡◌, refl, sym, ap, ◌∙◌, ◌⊎◌, inl, inr, Bool, true, Option, none, some, List, [], ◌∷◌, arith,
  all, subst, Member, and_both,
}
use finance_reconciliation.Imports.Rows.{ImportBatch, StagedRow}
use finance_reconciliation.Imports.Matching.{Registers}
use finance_reconciliation.Imports.Confirm.Snapshots.{
  Latest, candidate, keep_candidate, latest_by_account,
}
use finance_reconciliation.Imports.Confirm.AccountEntries.{
  OfAccount, after_candidate, after_candidate-OfAccount, after_candidate-Turned,
  after_candidate-from, after_candidate-mine, after_candidate-some, entry_of, entry_of-keep_latest,
  find-Member, stays,
}

module _ (registers : Registers) (batch : ImportBatch) where
  -- No row of the batch has a later balance of the account of an entry.
  abbrev pub is_latest : Latest → List StagedRow → Bool
  is_latest e rows = all (λ row. stays e (candidate registers batch row)) rows

  -- The entry of one account through the loop.
  abbrev running : ℕ → List StagedRow → Option Latest → Option Latest
  running account [] o = o
  running account (row ∷ rows) o =
      running account rows (after_candidate account (candidate registers batch row) o)

  entry_of-keep_candidate :
      (account : ℕ) (oc : Option Latest) (entries : List Latest)
      → entry_of account (keep_candidate oc entries)
        ≡ after_candidate account oc (entry_of account entries)
  entry_of-keep_candidate account none entries = refl
  entry_of-keep_candidate account (some c) entries = entry_of-keep_latest account c entries

  entry_of-latest_by_account :
      (account : ℕ) (rows : List StagedRow) (entries : List Latest)
      → entry_of account (latest_by_account registers batch rows entries)
        ≡ running account rows (entry_of account entries)
  unfolding latest_by_account
  entry_of-latest_by_account account [] entries = refl
  entry_of-latest_by_account account (row ∷ rows) entries =
      entry_of-latest_by_account account rows
        (keep_candidate (candidate registers batch row) entries)
      ∙ ap (running account rows)
          (entry_of-keep_candidate account (candidate registers batch row) entries)

  -- An entry that is of a row, and the latest of its account among the rows.
  pub record IsLatest (account : ℕ) (rows : List StagedRow) (e : Latest) : Type 0 where
    pub source : StagedRow
    pub among : Member source rows
    pub of_source : candidate registers batch source ≡ some e
    pub of_account : e.account ≡ account
    pub latest : is_latest e rows ≡ true

  running-latest :
      (account : ℕ) (rows : List StagedRow) (o : Option Latest) (e : Latest)
      → OfAccount account o
      → running account rows o ≡ some e
      → (e.account ≡ account) × (stays e o ≡ true) × (is_latest e rows ≡ true)
  running-latest account [] o e mine h =
      (subst (OfAccount account) h mine, rw h (ground arith), refl)
  running-latest account (row ∷ rows) o e mine h =
      let oc = candidate registers batch row in
      let (same, kept, rest) =
        running-latest account rows (after_candidate account oc o) e
          (after_candidate-OfAccount account oc o mine) h in
      let turned = after_candidate-Turned account oc o e mine same kept in
      (same, turned.kept, and_both _ _ turned.passed rest)

  running-source :
      (account : ℕ) (rows : List StagedRow) (o : Option Latest) (e : Latest)
      → running account rows o ≡ some e
      → (o ≡ some e)
        ⊎ ((source : StagedRow) × Member source rows × (candidate registers batch source ≡ some e))
  running-source account [] o e h = inl h
  running-source account (row ∷ rows) o e h = elim (running-source account rows _ e h) [
    | inr (source, m, k) ↦ inr (source, inr m, k)
    | inl k ↦ elim (after_candidate-from account (candidate registers batch row) o e k) [
      | inl before ↦ inl before
      | inr of_row ↦ inr (row, inl refl, of_row)
    ]
  ]

  -- Once there is an entry, there is one at the end.
  running-some :
      (account : ℕ) (rows : List StagedRow) (p : Latest)
      → (e : Latest) × (running account rows (some p) ≡ some e)
  running-some account [] p = (p, refl)
  running-some account (row ∷ rows) p =
      let (q, e) = after_candidate-some account (candidate registers batch row) p in
      let (last, f) = running-some account rows q in (last, ap (running account rows) e ∙ f)

  running-Member :
      (account : ℕ) (rows : List StagedRow) (o : Option Latest) (row : StagedRow) (c : Latest)
      → Member row rows
      → candidate registers batch row ≡ some c
      → c.account ≡ account
      → (e : Latest) × (running account rows o ≡ some e)
  running-Member account [] o row c m h mine = absurd m
  running-Member account (r ∷ rows) o row c (inr m) h mine =
      running-Member account rows _ row c m h mine
  running-Member account (r ∷ rows) o row c (inl same) h mine =
      let (q, e) = after_candidate-mine account c o mine in
      let here : candidate registers batch r ≡ some c =
        ap (candidate registers batch) (sym same) ∙ h in
      let (last, f) = running-some account rows q in
      (
        last,
        ap (λ (oc : Option Latest). running account rows (after_candidate account oc o)) here
            ∙ ap (running account rows) e
            ∙ f,
      )

  -- A row with a balance has an entry of its account, which is the latest of that account.
  pub latest_by_account-IsLatest :
      (rows : List StagedRow) (row : StagedRow) (c : Latest)
      → Member row rows
      → candidate registers batch row ≡ some c
      → (e : Latest) × Member e (latest_by_account registers batch rows [])
        × IsLatest c.account rows e
  latest_by_account-IsLatest rows row c m h =
      let (e, f) = running-Member c.account rows none row c m h refl in
      let there = entry_of-latest_by_account c.account rows [] ∙ f in
      let (same, kept, latest) = running-latest c.account rows none e tt f in
      elim (running-source c.account rows none e f) [
        | inl nothing ↦ cc
        | inr (source, among, of_source) ↦ (
          e,
          find-Member _ _ e there,
          record {
            source = source;
            among = among;
            of_source = of_source;
            of_account = same;
            latest = latest;
          },
        )
      ]
