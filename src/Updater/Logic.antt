-- ===== src/Updater/Logic.antt =====
-- Rules for what a run of the manager leads to: `Post` says what holds where it returns and where a
-- `SafeOperationError` leaves it, and that it raises nothing else.
use finance_reconciliation.Prelude.{◌≡◌, refl, Bool, true, false, List, ◌∷◌, if◌then◌else◌}
use finance_reconciliation.Prelude.Text.{Text}
use finance_reconciliation.Prelude.Outcome.{Outcome, ok, err}
use finance_reconciliation.Updater.Machine.{
  Raised, safe, conflict, Call, Machine, Run, and_then, ◌>>=◌, ◌>>◌, return, caught, attempt,
  answered, ask,
}

abbrev pub Meets :
    {A : Type 0} → (A → Machine → Type 0) → (Machine → Type 0) → Machine × Outcome Raised A → Type 0
Meets Q E (m, ok a) = Q a m
Meets Q E (m, err (safe code)) = E m
Meets Q E (m, err (conflict c)) = ⊥

pub record Post {A : Type 0} (Q : A → Machine → Type 0) (E : Machine → Type 0) (run : Run A)
    (m : Machine) : Type 0 where
  pub meets : Meets Q E (run m)

abbrev pub Never : Machine → Type 0
Never m = ⊥

-- What `attempt` goes on with.
abbrev pub Tried :
    {A : Type 0} → (A → Machine → Type 0) → (Machine → Type 0) → Outcome Text A → Machine → Type 0
Tried Q E (ok a) m = Q a m
Tried Q E (err code) m = E m

module _ {A : Type 0} where
  and_then-Meets :
      {B : Type 0} (Q : B → Machine → Type 0) (E : Machine → Type 0) (I : A → Machine → Type 0)
      (r : Machine × Outcome Raised A) (rest : A → Run B)
      → Meets I E r
      → ((a : A) (m : Machine) → I a m → Post Q E (rest a) m)
      → Meets Q E (and_then r rest)
  and_then-Meets Q E I (m, ok a) rest h k = (k a m h).meets
  and_then-Meets Q E I (m, err (safe code)) rest h k = h
  and_then-Meets Q E I (m, err (conflict c)) rest h k = h

  pub after :
      {B : Type 0} {Q : B → Machine → Type 0} {E : Machine → Type 0} (I : A → Machine → Type 0)
      {first : Run A} {rest : A → Run B} {m : Machine}
      → Post I E first m
      → ((a : A) (m : Machine) → I a m → Post Q E (rest a) m)
      → Post Q E (first >>= rest) m
  unfolding ◌>>=◌
  after {Q = Q} {E = E} I {first = first} {rest = rest} {m = m} h k = record {
    meets = and_then-Meets Q E I (first m) rest h.meets k;
  }

  caught-Meets :
      (Q : A → Machine → Type 0) (E : Machine → Type 0) (r : Machine × Outcome Raised A)
      → Meets Q E r
      → Meets (Tried Q E) Never (caught r)
  caught-Meets Q E (m, ok a) h = h
  caught-Meets Q E (m, err (safe code)) h = h
  caught-Meets Q E (m, err (conflict c)) h = h

  pub attempt-Post :
      {Q : A → Machine → Type 0} {E : Machine → Type 0} {body : Run A} {m : Machine}
      → Post Q E body m
      → Post (Tried Q E) Never (attempt body) m
  unfolding attempt
  attempt-Post {Q = Q} {E = E} {body = body} {m = m} h = record {
    meets = caught-Meets Q E (body m) h.meets;
  }

  weaken-Meets :
      (Q Q' : A → Machine → Type 0) (E E' : Machine → Type 0) (r : Machine × Outcome Raised A)
      → ((a : A) (m : Machine) → Q a m → Q' a m)
      → ((m : Machine) → E m → E' m)
      → Meets Q E r
      → Meets Q' E' r
  weaken-Meets Q Q' E E' (m, ok a) f g h = f a m h
  weaken-Meets Q Q' E E' (m, err (safe code)) f g h = g m h
  weaken-Meets Q Q' E E' (m, err (conflict c)) f g h = h

  pub weaken :
      {Q Q' : A → Machine → Type 0} {E E' : Machine → Type 0} {run : Run A} {m : Machine}
      → ((a : A) (m : Machine) → Q a m → Q' a m)
      → ((m : Machine) → E m → E' m)
      → Post Q E run m
      → Post Q' E' run m
  weaken {Q = Q} {Q' = Q'} {E = E} {E' = E'} {run = run} {m = m} f g h = record {
    meets = weaken-Meets Q Q' E E' (run m) f g h.meets;
  }

  pub return-Post :
      {Q : A → Machine → Type 0} {E : Machine → Type 0} (a : A) {m : Machine}
      → Q a m
      → Post Q E (return a) m
  unfolding return
  return-Post a h = record { meets = h }

  -- A call adds itself to the calls made, whether it answers or fails.
  answered-Meets :
      (Q : A → Machine → Type 0) (E : Machine → Type 0) (m : Machine) (reply : Outcome Text A)
      → ((a : A) → Q a m)
      → E m
      → Meets Q E (m, answered reply)
  answered-Meets Q E m (ok a) h k = h a
  answered-Meets Q E m (err code) h k = k

  pub ask-Post :
      {Q : A → Machine → Type 0} {E : Machine → Type 0} (call : Call)
      (answer : List Call → Outcome Text A) {m : Machine}
      → ((a : A) → Q a (record { state = m.state; calls = call ∷ m.calls }))
      → E (record { state = m.state; calls = call ∷ m.calls })
      → Post Q E (ask call answer) m
  unfolding ask
  ask-Post {Q = Q} {E = E} call answer {m = m} h k = record {
    meets = answered-Meets Q E _ (answer m.calls) h k;
  }

-- The same for a step whose value is not used.
pub next :
    {B : Type 0} {Q : B → Machine → Type 0} {E : Machine → Type 0} (I : Machine → Type 0)
    {first : Run (Unit {0})} {rest : Run B} {m : Machine}
    → Post (λ done. I) E first m
    → ((m : Machine) → I m → Post Q E rest m)
    → Post Q E (first >> rest) m
unfolding ◌>>◌
next {Q = Q} {E = E} I {first = first} {rest = rest} {m = m} h k = record {
  meets = and_then-Meets Q E (λ done. I) (first m) (λ done. rest) h.meets (λ done. k);
}

pub if-Post :
    {A : Type 0} {Q : A → Machine → Type 0} {E : Machine → Type 0} (test : Bool) {yes no : Run A}
    {m : Machine}
    → (test ≡ true → Post Q E yes m)
    → (test ≡ false → Post Q E no m)
    → Post Q E (if test then yes else no) m
if-Post true h k = h refl
if-Post false h k = k refl

-- What holds of both ends of a run holds after it has been tried.
tried :
    {A : Type 0} (I : Machine → Type 0) (result : Outcome Text A) (m : Machine)
    → Tried (λ value. I) I result m
    → I m
tried I (ok value) m h = h
tried I (err code) m h = h

pub attempt-either :
    {A : Type 0} {I E : Machine → Type 0} {body : Run A} {m : Machine}
    → Post (λ value. I) I body m
    → Post (λ result. I) E (attempt body) m
attempt-either {I = I} h = weaken (tried I) (λ m. absurd) (attempt-Post h)

returned_Meets :
    (I : Machine → Type 0) (r : Machine × Outcome Raised (Unit {0}))
    → Meets (λ done. I) Never r
    → (m : Machine) × (r ≡ (m, ok tt)) × I m
returned_Meets I (m, ok done) h = (m, refl, h)
returned_Meets I (m, err (safe code)) h = absurd h
returned_Meets I (m, err (conflict c)) h = absurd h

-- A run that raises nothing returns.
pub returned :
    {I : Machine → Type 0} {run : Run (Unit {0})} {m : Machine}
    → Post (λ done. I) Never run m
    → (m' : Machine) × (run m ≡ (m', ok tt)) × I m'
returned {I = I} {run = run} {m = m} h = returned_Meets I (run m) h.meets
