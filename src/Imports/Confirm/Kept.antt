-- ===== src/Imports/Confirm/Kept.antt =====
-- The formal records only grow under `confirm_batch` of apps/imports/services.py, if they only grow under
-- the other sessions: the status of a normal invoice may change, all else stays.
use finance_reconciliation.Prelude.{
  ℕ, ◌≡◌, refl, sym, ap, ◌∙◌, ◌⊎◌, inl, inr, Bool, true, false, some, List, [], ◌∷◌, ◌++◌, any,
  find, arith, ◌==◌, ==_iff, subst, Prefix, Prefix-refl, Prefix-trans, Bool-cases, if◌then◌else◌,
}
use finance_reconciliation.Ledger.{Invoice, InvoiceStatus, normal}
use finance_reconciliation.Imports.Tables.{Books, Surroundings}
use finance_reconciliation.Imports.Confirm.Insertions.{set_status}

-- An invoice before and after: the same, but for the status if that was normal.
pub record SameInvoice (i j : Invoice) : Type 0 where
  pub status : InvoiceStatus
  pub same : j ≡ record i { status = status }
  pub final : (i.status ≡ normal) ⊎ (j.status ≡ i.status)

abbrev pub Kept : List Invoice → List Invoice → Type 0
Kept [] after = Unit
Kept (i ∷ before) [] = ⊥
Kept (i ∷ before) (j ∷ after) = SameInvoice i j × Kept before after

-- The primary keys of the invoices are unique.
abbrev pub Distinct : List Invoice → Type 0
Distinct [] = Unit
Distinct (i ∷ invoices) = (any (λ j. j.id == i.id) invoices ≡ false) × Distinct invoices

pub record Grows (before after : Books) : Type 0 where
  pub invoices : Kept before.invoices after.invoices
  pub transactions : Prefix before.transactions after.transactions
  pub distinct : Distinct after.invoices

-- The other sessions only add records, or move a status on from normal, and the database keeps the
-- primary keys unique.
pub record Cooperates (w : Surroundings) : Type 0 where
  pub read : (n : ℕ) (b : Books) → Distinct b.invoices → Grows b (w.before_read n b)
  pub write : (n : ℕ) (b : Books) → Distinct b.invoices → Grows b (w.before_write n b)

SameInvoice-refl : (i : Invoice) → SameInvoice i i
SameInvoice-refl i = record { status = i.status; same = refl; final = inr refl }

final_trans :
    (a b c : InvoiceStatus)
    → (a ≡ normal) ⊎ (b ≡ a)
    → (b ≡ normal) ⊎ (c ≡ b)
    → (a ≡ normal) ⊎ (c ≡ a)
final_trans a b c (inl e) h = inl e
final_trans a b c (inr e) (inl f) = inl (sym e ∙ f)
final_trans a b c (inr e) (inr f) = inr (f ∙ e)

SameInvoice-trans : (i j k : Invoice) → SameInvoice i j → SameInvoice j k → SameInvoice i k
SameInvoice-trans i j k a b = record {
  status = b.status;
  same = b.same ∙ ap (λ (x : Invoice). record x { status = b.status }) a.same;
  final = final_trans i.status j.status k.status a.final b.final;
}

pub Kept-refl : (is : List Invoice) → Kept is is
Kept-refl [] = tt
Kept-refl (i ∷ is) = (SameInvoice-refl i, Kept-refl is)

Kept-trans : (is js ks : List Invoice) → Kept is js → Kept js ks → Kept is ks
Kept-trans [] js ks a b = tt
Kept-trans (i ∷ is) [] ks a b = absurd a
Kept-trans (i ∷ is) (j ∷ js) [] a b = absurd b
Kept-trans (i ∷ is) (j ∷ js) (k ∷ ks) (a, as') (b, bs) =
    (SameInvoice-trans i j k a b, Kept-trans is js ks as' bs)

pub Kept-append : (is js : List Invoice) → Kept is (is ++ js)
Kept-append [] js = tt
Kept-append (i ∷ is) js = (SameInvoice-refl i, Kept-append is js)

pub Grows-refl : (b : Books) → Distinct b.invoices → Grows b b
Grows-refl b d = record {
  invoices = Kept-refl b.invoices;
  transactions = Prefix-refl b.transactions;
  distinct = d;
}

pub Grows-trans : (a b c : Books) → Grows a b → Grows b c → Grows a c
Grows-trans a b c g h = record {
  invoices = Kept-trans a.invoices b.invoices c.invoices g.invoices h.invoices;
  transactions =
      Prefix-trans a.transactions b.transactions c.transactions g.transactions h.transactions;
  distinct = h.distinct;
}

-- A status update, by the primary key of the normal invoice that a query has found.
any-set_status :
    (k n : ℕ) (status : InvoiceStatus) (is : List Invoice)
    → any (λ j. j.id == n) (set_status k status is) ≡ any (λ j. j.id == n) is
any-set_status k n status [] = refl
any-set_status k n status (i ∷ is) = ground (arith, any-set_status k n status is)

pub set_status-Distinct :
    (k : ℕ) (status : InvoiceStatus) (is : List Invoice)
    → Distinct is
    → Distinct (set_status k status is)
set_status-Distinct k status [] d = tt
set_status-Distinct k status (i ∷ is) (absent, d) =
    (ground (arith, any-set_status k i.id status is), set_status-Distinct k status is d)

set_status-absent :
    (k : ℕ) (status : InvoiceStatus) (is : List Invoice)
    → any (λ j. j.id == k) is ≡ false
    → set_status k status is ≡ is
set_status-absent k status [] h = refl
set_status-absent k status (i ∷ is) h = ground (arith, set_status-absent k status is)

find-any-id :
    (p : Invoice → Bool) (is : List Invoice) (e : Invoice)
    → find p is ≡ some e
    → any (λ j. j.id == e.id) is ≡ true
find-any-id p [] e h = cc
find-any-id p (i ∷ is) e h = ground (arith, find-any-id p is e)

SameInvoice-if :
    (test : Bool) (status : InvoiceStatus) (i : Invoice)
    → (test ≡ true → i.status ≡ normal)
    → SameInvoice i (if test then record i { status = status } else i)
SameInvoice-if true status i open_status = record {
  status = status;
  same = refl;
  final = inl (open_status refl);
}
SameInvoice-if false status i open_status = SameInvoice-refl i

pub set_status-Kept :
    (p : Invoice → Bool) (status : InvoiceStatus) (is : List Invoice) (e : Invoice)
    → Distinct is
    → find p is ≡ some e
    → e.status ≡ normal
    → Kept is (set_status e.id status is)
set_status-Kept p status [] e d h open_status = tt
set_status-Kept p status (i ∷ is) e (absent, d) h open_status = elim (Bool-cases (p i)) [
  | inl here ↦
      let same : i ≡ e = ground (arith, here, h) in
      let absent_e : any (λ j. j.id == e.id) is ≡ false =
        subst (λ (x : Invoice). any (λ j. j.id == x.id) is ≡ false) same absent in
      (
        SameInvoice-if (i.id == e.id) status i
            (λ t. ap (λ (x : Invoice). x.status) same ∙ open_status),
        subst (Kept is) (sym (set_status-absent e.id status is absent_e)) (Kept-refl is),
      )
  | inr later ↦
      let found : find p is ≡ some e = ground (arith, later, h) in
      (
        SameInvoice-if (i.id == e.id) status i (λ t. absurd (apart found t)),
        set_status-Kept p status is e d found open_status,
      )
]
  where
    apart : find p is ≡ some e → (i.id == e.id) ≡ true → ⊥
    apart found t = ground (arith, absent, find-any-id p is e found, t, ==_iff i.id e.id)
