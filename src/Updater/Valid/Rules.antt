-- ===== src/Updater/Valid/Rules.antt =====
-- Rules for runs of the manager (updater/manager.py) that keep the saved state valid, whether they
-- return or raise.
use finance_reconciliation.Prelude.{◌≡◌, refl, Bool, true, false, List, ◌∷◌, if◌then◌else◌}
use finance_reconciliation.Prelude.Text.{Text}
use finance_reconciliation.Prelude.Outcome.{Outcome, ok, err}
use finance_reconciliation.Updater.Types.{PersistentState}
use finance_reconciliation.Updater.Machine.{
  Raised, safe, conflict, Conflict, Call, Platform, Machine, Run, and_then, ◌>>=◌, ◌>>◌, return,
  raise, raise_if, caught, attempt, answered, ask, perform, current_time, get_state, save_state,
}
use finance_reconciliation.Updater.State.RoundTrip.{is_valid}

abbrev pub IsSafe : {A : Type 0} → (A → Type 0) → Machine × Outcome Raised A → Type 0
IsSafe Q (m, ok a) = (is_valid m.state ≡ true) × Q a
IsSafe Q (m, err e) = is_valid m.state ≡ true

-- From a valid state the run leaves one, and what it returns satisfies `Q`.
pub record Gives {A : Type 0} (Q : A → Type 0) (run : Run A) : Type 0 where
  pub gives : (m : Machine) → is_valid m.state ≡ true → IsSafe Q (run m)

abbrev pub Any : {A : Type 0} → A → Type 0
Any a = Unit {0}

-- Of what was tried, the value.
abbrev pub WhereOk : {A : Type 0} → (A → Type 0) → Outcome Text A → Type 0
WhereOk Q (ok a) = Q a
WhereOk Q (err code) = Unit {0}

caught-IsSafe :
    {A : Type 0} (Q : A → Type 0) (r : Machine × Outcome Raised A)
    → IsSafe Q r
    → IsSafe (WhereOk Q) (caught r)
caught-IsSafe Q (m, ok a) h = h
caught-IsSafe Q (m, err (safe code)) h = (h, tt)
caught-IsSafe Q (m, err (conflict c)) h = h

answered-IsSafe :
    {A : Type 0} (Q : A → Type 0) (m : Machine) (reply : Outcome Text A)
    → is_valid m.state ≡ true
    → WhereOk Q reply
    → IsSafe Q (m, answered reply)
answered-IsSafe Q m (ok a) valid h = (valid, h)
answered-IsSafe Q m (err code) valid h = valid

module _ {A : Type 0} {Q : A → Type 0} where
  pub return-Gives : (a : A) → Q a → Gives Q (return a)
  unfolding return
  return-Gives a h = record { gives = λ m valid. (valid, h) }

  pub raise-Gives : (c : Conflict) → Gives Q (raise c)
  unfolding raise
  raise-Gives c = record { gives = λ m valid. valid }

  pub if-Gives :
      (test : Bool) {yes no : Run A}
      → (test ≡ true → Gives Q yes)
      → (test ≡ false → Gives Q no)
      → Gives Q (if test then yes else no)
  if-Gives true h k = h refl
  if-Gives false h k = k refl

  and_then-IsSafe :
      {I : Type 0} (P : I → Type 0) (r : Machine × Outcome Raised I) (rest : I → Run A)
      → IsSafe P r
      → ((i : I) → P i → Gives Q (rest i))
      → IsSafe Q (and_then r rest)
  and_then-IsSafe P (m, ok i) rest (valid, h) k = (k i h).gives m valid
  and_then-IsSafe P (m, err e) rest h k = h

  pub and-Gives :
      {I : Type 0} {P : I → Type 0} {first : Run I} {rest : I → Run A}
      → Gives P first
      → ((i : I) → P i → Gives Q (rest i))
      → Gives Q (first >>= rest)
  unfolding ◌>>=◌
  and-Gives {P = P} {first = first} {rest = rest} h k = record {
    gives = λ m valid. and_then-IsSafe P (first m) rest (h.gives m valid) k;
  }

  pub next-Gives :
      {P : Unit {0} → Type 0} {first : Run (Unit {0})} {rest : Run A}
      → Gives P first
      → Gives Q rest
      → Gives Q (first >> rest)
  unfolding ◌>>◌
  next-Gives {P = P} {first = first} {rest = rest} h k = record {
    gives = λ m valid. and_then-IsSafe P (first m) (λ done. rest) (h.gives m valid) (λ done p. k);
  }

  pub attempt-Gives : {body : Run A} → Gives Q body → Gives (WhereOk Q) (attempt body)
  unfolding attempt
  attempt-Gives {body = body} h = record {
    gives = λ m valid. caught-IsSafe Q (body m) (h.gives m valid);
  }

  pub ask-Gives :
      (call : Call) (answer : List Call → Outcome Text A)
      → ((calls : List Call) → WhereOk Q (answer calls))
      → Gives Q (ask call answer)
  unfolding ask
  ask-Gives call answer h = record {
    gives = λ m valid.
        answered-IsSafe Q (record { state = m.state; calls = call ∷ m.calls }) (answer m.calls)
          valid (h m.calls);
  }

-- An answer of which nothing is needed.
pub value_unused : {A : Type 0} (reply : Outcome Text A) → WhereOk Any reply
value_unused (ok a) = tt
value_unused (err code) = tt

pub raise_if-Gives : (test : Bool) (c : Conflict) → Gives Any (raise_if test c)
unfolding raise_if
raise_if-Gives true c = raise-Gives c
raise_if-Gives false c = return-Gives tt tt

pub get_state-Gives : Gives (λ s. is_valid s ≡ true) get_state
unfolding get_state
get_state-Gives = record { gives = λ m valid. (valid, valid) }

pub save_state-Gives : (s : PersistentState) → is_valid s ≡ true → Gives Any (save_state s)
unfolding save_state
save_state-Gives s h = record { gives = λ m valid. (h, tt) }

pub perform-Gives : (p : Platform) (call : Call) → Gives Any (perform p call)
unfolding perform
perform-Gives p call = ask-Gives call _ (λ calls. value_unused (p.performed call calls))

pub current_time-Gives : (p : Platform) → Gives Any (current_time p)
unfolding current_time
current_time-Gives p = ask-Gives _ _ (λ calls. tt)

anything :
    {A : Type 0} (Q : A → Type 0) (r : Machine × Outcome Raised A) → IsSafe Q r → IsSafe Any r
anything Q (m, ok a) (valid, h) = (valid, tt)
anything Q (m, err e) h = h

pub forget_value : {A : Type 0} {Q : A → Type 0} {run : Run A} → Gives Q run → Gives Any run
forget_value {Q = Q} {run = run} h = record {
  gives = λ m valid. anything Q (run m) (h.gives m valid);
}
