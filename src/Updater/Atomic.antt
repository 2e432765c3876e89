-- ===== src/Updater/Atomic.antt =====
-- Rules for runs that save the state at their end: where such a run raises, whatever it raises, the
-- saved state is the one that it found.
use mathlib.Core.Path.{transport}
use finance_reconciliation.Prelude.{ap, ◌≡◌, refl, Bool, true, false, List, ◌∷◌, if◌then◌else◌}
use finance_reconciliation.Prelude.Text.{Text}
use finance_reconciliation.Prelude.Outcome.{Outcome, ok, err}
use finance_reconciliation.Updater.Types.{PersistentState}
use finance_reconciliation.Updater.Machine.{
  Raised, Conflict, Call, Machine, Run, and_then, ◌>>=◌, ◌>>◌, return, raise, raise_if, answered,
  ask, save_state,
}

abbrev pub Commits :
    {A : Type 0}
    → PersistentState
    → (A → PersistentState → Type 0)
    → Machine × Outcome Raised A
    → Type 0
Commits s Q (m, ok a) = Q a m.state
Commits s Q (m, err e) = m.state ≡ s

-- Where `run` returns, the value and the saved state satisfy `Q`; where it raises, the state is `s`.
pub record Atomic {A : Type 0} (s : PersistentState) (Q : A → PersistentState → Type 0)
    (run : Run A) (m : Machine) : Type 0 where
  pub commits : Commits s Q (run m)

module _ {s : PersistentState} {A B : Type 0} {Q : B → PersistentState → Type 0} where
  and_then-Commits :
      (I : A → Type 0) (r : Machine × Outcome Raised A) (rest : A → Run B)
      → Commits s (λ a now. (now ≡ s) × I a) r
      → ((a : A) (m : Machine) → m.state ≡ s → I a → Atomic s Q (rest a) m)
      → Commits s Q (and_then r rest)
  and_then-Commits I (m, ok a) rest (same, h) k = (k a m same h).commits
  and_then-Commits I (m, err e) rest h k = h

  -- A step that leaves the state, and what follows it.
  pub first :
      (I : A → Type 0) {step : Run A} {rest : A → Run B} {m : Machine}
      → Atomic s (λ a now. (now ≡ s) × I a) step m
      → ((a : A) (m : Machine) → m.state ≡ s → I a → Atomic s Q (rest a) m)
      → Atomic s Q (step >>= rest) m
  unfolding ◌>>=◌
  first I {step = step} {rest = rest} {m = m} h k = record {
    commits = and_then-Commits I (step m) rest h.commits k;
  }

module _ {s : PersistentState} {A : Type 0} {Q : A → PersistentState → Type 0} where
  pub returns : {m : Machine} (a : A) → Q a m.state → Atomic s Q (return a) m
  unfolding return
  returns a h = record { commits = h }

  pub raises : {m : Machine} (c : Conflict) → m.state ≡ s → Atomic s Q (raise c) m
  unfolding raise
  raises c h = record { commits = h }

  pub if-Atomic :
      {m : Machine} (test : Bool) {yes no : Run A}
      → (test ≡ true → Atomic s Q yes m)
      → (test ≡ false → Atomic s Q no m)
      → Atomic s Q (if test then yes else no) m
  if-Atomic true h k = h refl
  if-Atomic false h k = k refl

module _ {s : PersistentState} {B : Type 0} {Q : B → PersistentState → Type 0} where
  -- The same for a step whose value is not used.
  pub check_first :
      (I : Type 0) {step : Run (Unit {0})} {rest : Run B} {m : Machine}
      → Atomic s (λ done now. (now ≡ s) × I) step m
      → ((m : Machine) → m.state ≡ s → I → Atomic s Q rest m)
      → Atomic s Q (step >> rest) m
  unfolding ◌>>◌
  check_first I {step = step} {rest = rest} {m = m} h k = record {
    commits = and_then-Commits (λ done. I) (step m) (λ done. rest) h.commits (λ done. k);
  }

module _ {s : PersistentState} where
  answered-Commits :
      {A : Type 0} (m : Machine) (reply : Outcome Text A)
      → m.state ≡ s
      → Commits s (λ a now. (now ≡ s) × Unit {0}) (m, answered reply)
  answered-Commits m (ok a) h = (h, tt)
  answered-Commits m (err code) h = h

  -- A call of the platform does not touch the state.
  pub ask-Atomic :
      {A : Type 0} {m : Machine} (call : Call) (answer : List Call → Outcome Text A)
      → m.state ≡ s
      → Atomic s (λ a now. (now ≡ s) × Unit {0}) (ask call answer) m
  unfolding ask
  ask-Atomic {m = m} call answer h = record {
    commits =
        answered-Commits (record { state = m.state; calls = call ∷ m.calls }) (answer m.calls) h;
  }

  pub raise_if-Atomic :
      {m : Machine} (test : Bool) (c : Conflict)
      → m.state ≡ s
      → Atomic s (λ done now. (now ≡ s) × (test ≡ false)) (raise_if test c) m
  unfolding raise_if raise return
  raise_if-Atomic true c h = record { commits = h }
  raise_if-Atomic false c h = record { commits = (h, refl) }

-- What is saved last is what holds.
pub save_then :
    {B : Type 0} {s : PersistentState} {Q : B → PersistentState → Type 0} {m : Machine}
    (new : PersistentState) (b : B)
    → Q b new
    → Atomic s Q (save_state new >> return b) m
unfolding ◌>>◌ save_state return
save_then new b h = record { commits = h }

loosen-Commits :
    {A : Type 0} (s : PersistentState) (Q R : A → PersistentState → Type 0)
    → ((a : A) (now : PersistentState) → Q a now → R a now)
    → (r : Machine × Outcome Raised A) → Commits s Q r
    → Commits s R r
loosen-Commits s Q R f (m, ok a) h = f a m.state h
loosen-Commits s Q R f (m, err e) h = h

pub loosen :
    {A : Type 0} {s : PersistentState} {Q R : A → PersistentState → Type 0} {run : Run A}
    {m : Machine}
    → ((a : A) (now : PersistentState) → Q a now → R a now)
    → Atomic s Q run m
    → Atomic s R run m
loosen {s = s} {Q = Q} {R = R} {run = run} {m = m} f h = record {
  commits = loosen-Commits s Q R f (run m) h.commits;
}

-- What a run that returned has committed.
pub committed :
    {A : Type 0} {s : PersistentState} {Q : A → PersistentState → Type 0} {run : Run A}
    {m m' : Machine} {a : A}
    → Atomic s Q run m
    → run m ≡ (m', ok a)
    → Q a m'.state
committed {s = s} {Q = Q} h e = transport (ap (Commits s Q) e) h.commits
