-- ===== src/Accounts/Bootstrapped.antt =====
-- What `bootstrap_role_user` of apps/accounts/bootstrap.py leaves behind.
use finance_reconciliation.Prelude.{
  ℕ, zero, suc, ◌+◌, ◌≡◌, refl, Bool, true, false, not, ◌&&◌, ◌||◌, Option, none, some, ◌==◌, arith,
  subst, Bool-cases, inl, inr, if◌then◌else◌, List, [], ◌∷◌, ◌++◌, ◌∙◌, ap,
}
use finance_reconciliation.Prelude.Text.{Text, text_eq_refl}
use finance_reconciliation.Prelude.Outcome.{
  ok, err, raise_if, or_raise, >>=-eq-ok, >>-eq-ok, or_raise-eq-ok, ok-injective,
}
use finance_reconciliation.Accounts.Roles.{Role, finance, owner, Directory, user_has_role}
use finance_reconciliation.Accounts.Exclusive.{assign_role-decides}
use finance_reconciliation.Accounts.Bootstrap.{
  User, set_password, BootstrapChanges, System, operational_error, other_business_role,
  does_not_exist, Options, Django, other_business, find_user, has_other_business_role,
  requires_role_assignment, settle, save_user, with_found, bootstrap_role_user_once, attempts,
  require_username, require_password, normalized, bootstrap_role_user, assign_if,
}

-- A user has one business role, and not the other.
abbrev pub HasOnly : ℕ → Role → Directory → Type 0
HasOnly user r dir =
    (user_has_role user r dir ≡ true) × (user_has_role user (other_business r) dir ≡ false)

assign_if-HasOnly :
    (assigned : Bool) (user : ℕ) (r : Role) (dir dir' : Directory)
    → requires_role_assignment user r dir ≡ assigned
    → assign_if assigned user r dir ≡ some dir'
    → HasOnly user r dir'
unfolding requires_role_assignment user_has_role
assign_if-HasOnly false user finance dir dir' e h = ground (arith, e, h)
assign_if-HasOnly false user owner dir dir' e h = ground (arith, e, h)
assign_if-HasOnly true user finance dir dir' e h = assign_role-decides user finance dir dir' h
assign_if-HasOnly true user owner dir dir' e h = assign_role-decides user owner dir dir' h

abbrev id_of : Option User → Option ℕ
id_of none = none
id_of (some u) = some u.id

-- The user of a name is the one with that key.
abbrev pub IsNamed : Text → ℕ → List User → Type 0
IsNamed username user users = id_of (find_user username users) ≡ some user

set_password-IsNamed :
    (reset : Bool) (k : ℕ) (password username : Text) (users : List User)
    → id_of (find_user username (set_password reset k password users))
      ≡ id_of (find_user username users)
set_password-IsNamed false k password username users = refl
set_password-IsNamed true k password username [] = refl
set_password-IsNamed true k password username (u ∷ users) =
    ground (arith, set_password-IsNamed true k password username users)

find_user-insert :
    (users : List User) (u : User)
    → find_user u.username users ≡ none
    → IsNamed u.username u.id (users ++ u ∷ [])
find_user-insert [] u h = rw (text_eq_refl u.username)
find_user-insert (v ∷ users) u h = ground (arith, h, find_user-insert users u)

module _ (django : Django) (options : Options) (password : Text) where
  abbrev Settled : Text → System × BootstrapChanges → Type 0
  Settled username out =
      HasOnly out.1.user options.role out.0.directory × IsNamed username out.1.user out.0.users

  settle-Settled :
      (username : Text) (created : Bool) (user : ℕ) (s : System) (out : System × BootstrapChanges)
      → IsNamed username user s.users
      → settle django options password created user s ≡ ok out
      → Settled username out
  unfolding settle
  settle-Settled username created user s out named h =
      let rest =
        (>>-eq-ok
          (raise_if
            (options.reject_other_business_role
              && has_other_business_role user options.role s.directory)
            other_business_role)
          _ h).1 in
      let (directory, found, done) =
        >>=-eq-ok
          (or_raise
            (assign_if (requires_role_assignment user options.role s.directory) user options.role
              s.directory)
            does_not_exist)
          _ rest in
      let role_given = assign_if-HasOnly _ user options.role s.directory directory refl (
        or_raise-eq-ok
          (assign_if (requires_role_assignment user options.role s.directory) user options.role
            s.directory)
          does_not_exist found) in
      subst (Settled username) (ok-injective done) (
        role_given,
        set_password-IsNamed (options.reset_password && not created) user _ username s.users
            ∙ named,
      )

  bootstrap_role_user_once-Settled :
      (username : Text) (fresh attempt : ℕ) (s : System) (out : System × BootstrapChanges)
      → bootstrap_role_user_once django options password username fresh attempt s ≡ ok out
      → Settled username out
  unfolding bootstrap_role_user_once
  bootstrap_role_user_once-Settled username fresh attempt s out h =
      search_found (find_user username s.users) refl h
    where
      inserted :
          (now : System) (found : Option User)
          → find_user username now.users ≡ found
          → save_user django options password username fresh now found ≡ ok out
          → Settled username out
      inserted now none absent e =
          settle-Settled username true fresh _ out (find_user-insert now.users _ absent) e
      inserted now (some u) there e = settle-Settled username false u.id now out (ap id_of there) e

      search_found :
          (found : Option User)
          → find_user username s.users ≡ found
          → with_found django options password username fresh attempt s found ≡ ok out
          → Settled username out
      search_found none absent e = inserted (django.before_save attempt s) _ refl e
      search_found (some u) there e = settle-Settled username false u.id s out (ap id_of there) e

  attempts-Settled :
      (username : Text) (fresh left attempt : ℕ) (s : System) (out : System × BootstrapChanges)
      → attempts django options password username fresh left attempt s ≡ ok out
      → Settled username out
  unfolding attempts
  attempts-Settled username fresh zero attempt s out h = cc
  attempts-Settled username fresh (suc left) attempt s out h =
      go (django.raises attempt) h (attempts-Settled username fresh left (attempt + 1) s out)
    where
      go :
          (raised : Option Bool)
          → elim raised [
            | none ↦ bootstrap_role_user_once django options password username fresh attempt s
            | some locked ↦
                if not locked || left == 0
                then err operational_error
                else attempts django options password username fresh left (attempt + 1) s
          ]
            ≡ ok out
          → (attempts django options password username fresh left (attempt + 1) s ≡ ok out
              → Settled username out)
          → Settled username out
      go none e again = bootstrap_role_user_once-Settled username fresh attempt s out e
      go (some locked) e again = elim (Bool-cases (not locked || left == 0)) [
        | inl stops ↦ let failed = rw stops at e in cc
        | inr goes_on ↦ again (rw goes_on at e)
      ]

-- Where `bootstrap_role_user` returns, whatever other sessions commit and however often the database
-- was locked, there is a user of the name that was asked for, which it created or found, and this
-- user has the role that was asked for and not the other one.
pub bootstrap_role_user-HasOnly :
    (django : Django) (options : Options) (fresh : ℕ) (s : System) (out : System × BootstrapChanges)
    → bootstrap_role_user django options fresh s ≡ ok out
    → HasOnly out.1.user options.role out.0.directory
      × IsNamed (normalized django options) out.1.user out.0.users
unfolding bootstrap_role_user
bootstrap_role_user-HasOnly django options fresh s out h =
    let username = normalized django options in
    let (password, given, rest) =
      >>=-eq-ok (require_password django options username) _
        (>>-eq-ok (require_username django options username) _ h).1 in
    attempts-Settled django options password username fresh 20 0 s out rest
