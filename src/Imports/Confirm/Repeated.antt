-- ===== src/Imports/Confirm/Repeated.antt =====
-- A second call of `confirm_batch` of apps/imports/services.py for the same batch.
use finance_reconciliation.Prelude.{
  ℕ, ◌≡◌, refl, sym, ap, ◌∙◌, inl, inr, true, Option, none, some, List, find, ◌==◌, subst,
  Option-cases,
}
use finance_reconciliation.Accounts.Roles.{Actor, is_finance_actor}
use finance_reconciliation.Imports.Rows.{ImportBatch}
use finance_reconciliation.Imports.Tables.{ok, ok-injective, ImportResult, Tables, Surroundings}
use finance_reconciliation.Imports.Confirm.Operation.{
  from_batch, confirmed_batch, find_batch, confirm_found, confirm_batch,
}
use finance_reconciliation.Imports.Confirm.Confirmed.{
  confirm_batch-Confirmed, confirm_batch-found, find-save_batch,
}

confirm_batch-again :
    (w : Surroundings) (fresh now k t : ℕ) (actor : Actor) (batch : ImportBatch) (db : Tables)
    → find_batch k db ≡ some batch
    → batch.confirmed_at ≡ some t
    → is_finance_actor actor db.directory ≡ true
    → confirm_batch w fresh now k actor db ≡ ok (from_batch batch db.rows, db)
unfolding confirm_batch
confirm_batch-again w fresh now k t actor batch db found confirmed finance =
    rw (finance, found)
      (ap (λ (t : Option ℕ). confirm_found w fresh now actor batch t db) confirmed)

first_then_again :
    (w w' : Surroundings) (fresh fresh' now now' k : ℕ) (actor actor' : Actor) (batch : ImportBatch)
    (db db' : Tables) (result : ImportResult)
    → find_batch k db ≡ some batch
    → batch.confirmed_at ≡ none
    → confirm_batch w fresh now k actor db ≡ ok (result, db')
    → is_finance_actor actor' db'.directory ≡ true
    → confirm_batch w' fresh' now' k actor' db' ≡ ok (result, db')
unfolding confirmed_batch
first_then_again w w' fresh fresh' now now' k actor actor' batch db db' result found open_batch h
      finance =
    let c = confirm_batch-Confirmed w fresh now k actor batch db db' result found open_batch h in
    let saved = confirmed_batch batch c.posting now in
    let found_saved =
      subst (λ (bs : List ImportBatch). find (λ b. b.id == k) bs ≡ some saved) (sym c.batches_of)
        (find-save_batch k batch saved db.batches found refl) in
    let same : from_batch saved db'.rows ≡ result =
      ap (from_batch saved) c.rows_of ∙ sym c.result_of in
    confirm_batch-again w' fresh' now' k now actor' saved db' found_saved refl finance
    ∙ ap (λ (r : ImportResult). ok (r, db')) same

-- After a call of `confirm_batch` that returned, another one for the batch, by any finance staff, at
-- any time and whatever happens around it, returns the same result and changes nothing.
pub confirm_batch-once :
    (w w' : Surroundings) (fresh fresh' now now' k : ℕ) (actor actor' : Actor) (db db' : Tables)
    (result : ImportResult)
    → confirm_batch w fresh now k actor db ≡ ok (result, db')
    → is_finance_actor actor' db'.directory ≡ true
    → confirm_batch w' fresh' now' k actor' db' ≡ ok (result, db')
confirm_batch-once w w' fresh fresh' now now' k actor actor' db db' result h finance =
    let (batch, found, h₁) = confirm_batch-found w fresh now k actor db (result, db') h in
    elim (Option-cases batch.confirmed_at) [
      | inl fresh_one ↦
          first_then_again w w' fresh fresh' now now' k actor actor' batch db db' result found
            fresh_one h finance
      | inr (t, confirmed) ↦
          let done : ok (from_batch batch db.rows, db) ≡ ok (result, db') =
            subst (λ (t : Option ℕ). confirm_found w fresh now actor batch t db ≡ ok (result, db'))
              confirmed h₁ in
          let e : ◌≡◌ {A = ImportResult × Tables} (from_batch batch db.rows, db) (result, db') =
            ok-injective done in
          subst (λ (r : ImportResult × Tables). confirm_batch w' fresh' now' k actor' r.1 ≡ ok r) e
            (confirm_batch-again w' fresh' now' k t actor' batch db found confirmed (
              subst (λ (r : ImportResult × Tables). is_finance_actor actor' r.1.directory ≡ true)
                (sym e) finance))
    ]
