-- ===== src/Prelude/Outcome.antt =====
-- What a call returns or raises, the exceptions as a type of the caller's choice, and what is known
-- of the steps of a chain that returned.
use mathlib.Core.Path.{◌≡◌, refl}
use mathlib.Core.Bool.{Bool, true, false}
use mathlib.Core.Option.{Option, none, some}

-- `err` carries the exception.
pub data Outcome (E : Type 0) (A : Type 0) : Type 0 where
  err : E → Outcome E A
  ok : A → Outcome E A

module _ {E : Type 0} where
  infixl 5 ◌>>=◌ ◌>>◌
  -- `if test: raise failure`
  abbrev pub raise_if : Bool → E → Outcome E (Unit {0})
  raise_if false failure = ok tt
  raise_if true failure = err failure

  -- `if not test: raise failure`
  abbrev pub guard : Bool → E → Outcome E (Unit {0})
  guard false failure = err failure
  guard true failure = ok tt

  abbrev pub or_raise : {A : Type 0} → Option A → E → Outcome E A
  or_raise (some found) failure = ok found
  or_raise none failure = err failure

  abbrev pub ◌>>◌ : {B : Type 0} → Outcome E (Unit {0}) → Outcome E B → Outcome E B
  ok done >> rest = rest
  err failure >> rest = err failure

  abbrev pub ◌>>=◌ : {A B : Type 0} → Outcome E A → (A → Outcome E B) → Outcome E B
  err failure >>= rest = err failure
  ok value >>= rest = rest value

  pub guard-eq-ok : (test : Bool) (failure : E) → guard test failure ≡ ok tt → test ≡ true
  guard-eq-ok false failure h = cc
  guard-eq-ok true failure h = refl

  pub raise_if-eq-ok : (test : Bool) (failure : E) → raise_if test failure ≡ ok tt → test ≡ false
  raise_if-eq-ok false failure h = refl
  raise_if-eq-ok true failure h = cc

  pub or_raise-eq-ok :
      {A : Type 0} (found : Option A) (failure : E) {value : A}
      → or_raise found failure ≡ ok value
      → found ≡ some value
  or_raise-eq-ok (some found) failure h = cc
  or_raise-eq-ok none failure h = cc

  pub >>-eq-ok :
      {B : Type 0} (first : Outcome E (Unit {0})) (rest : Outcome E B) {result : B}
      → (first >> rest) ≡ ok result
      → (first ≡ ok tt) × (rest ≡ ok result)
  >>-eq-ok (err failure) rest h = cc
  >>-eq-ok (ok done) rest h = (refl, h)

  pub >>=-eq-ok :
      {A B : Type 0} (first : Outcome E A) (rest : A → Outcome E B) {result : B}
      → (first >>= rest) ≡ ok result
      → (value : A) × (first ≡ ok value) × (rest value ≡ ok result)
  >>=-eq-ok (err failure) rest h = cc
  >>=-eq-ok (ok value) rest h = (value, refl, h)

  pub ok-injective : {A : Type 0} {a b : A} → ◌≡◌ {A = Outcome E A} (ok a) (ok b) → a ≡ b
  ok-injective h = cc
