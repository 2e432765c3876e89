-- ===== src/Accounts/Bootstrap.antt =====
-- `bootstrap_role_user` of apps/accounts/bootstrap.py. What Django does
-- with names and passwords is a parameter, as are the key of a new user, what other sessions commit
-- between the search of the user and its insertion, and the errors of the database.
use finance_reconciliation.Prelude.{
  ℕ, zero, suc, ◌+◌, Bool, true, false, not, ◌&&◌, ◌||◌, Option, none, some, List, [], ◌∷◌, ◌++◌,
  map, find, ◌==◌, if◌then◌else◌,
}
use finance_reconciliation.Prelude.Text.{Text, text_eq, is_empty, strip}
use finance_reconciliation.Prelude.Outcome.{
  Outcome, ok, err, raise_if, guard, or_raise, ◌>>=◌, ◌>>◌,
}
use finance_reconciliation.Accounts.Password.{PasswordFailure, read_password}
use finance_reconciliation.Accounts.Roles.{Role, finance, owner, Directory, in_group, assign_role}

pub record User : Type 0 where
  pub id : ℕ
  pub username : Text
  pub password : Text

-- What a call did; it is the audit record, and decides the message.
pub record BootstrapChanges : Type 0 where
  pub user : ℕ
  pub created : Bool
  pub role_assigned : Bool
  pub password_reset : Bool

pub record System : Type 0 where
  pub users : List User
  pub directory : Directory
  pub audit : List BootstrapChanges

pub data BootstrapFailure : Type 0 where
  -- `CommandError`
  no_username bad_username no_password weak_password other_business_role : BootstrapFailure
  bad_input : PasswordFailure → BootstrapFailure
  -- `OperationalError`, `DoesNotExist`
  operational_error does_not_exist : BootstrapFailure

pub record Options : Type 0 where
  pub role : Role
  pub username : Text
  -- `--password-stdin`, what standard input has, and the environment's value
  pub password_stdin : Bool
  pub password_from_stdin_only : Bool
  pub input : Text
  pub environment : Text
  pub reset_password : Bool
  pub strict_username : Bool
  pub reject_other_business_role : Bool

pub record Django : Type 0 where
  pub normalize_username : Text → Text
  pub accepts_username : Text → Bool
  pub accepts_password : Text → Text → Bool
  pub make_password : Text → Text
  -- at each attempt: what other sessions commit, and whether the database raises an
  -- `OperationalError`, which says that the database is locked, or does not
  pub before_save : ℕ → System → System
  pub raises : ℕ → Option Bool

abbrev pub other_business : Role → Role
other_business finance = owner
other_business owner = finance

-- `_find_existing_user`
abbrev pub find_user : Text → List User → Option User
find_user username users = find (λ u. text_eq u.username username) users

-- `_has_other_business_role`
unfoldable pub has_other_business_role : ℕ → Role → Directory → Bool
has_other_business_role user r dir = in_group (other_business r) user dir

-- `_requires_role_assignment`
unfoldable pub requires_role_assignment : ℕ → Role → Directory → Bool
requires_role_assignment user r dir =
    not (in_group r user dir && not (in_group (other_business r) user dir))

-- `user.set_password(…)` and its save, of a user by key.
abbrev pub set_password : Bool → ℕ → Text → List User → List User
set_password false k password users = users
set_password true k password users =
    map (λ u. if u.id == k then record u { password = password } else u) users

abbrev pub assign_if : Bool → ℕ → Role → Directory → Option Directory
assign_if false user r dir = some dir
assign_if true user r dir = assign_role user r dir

module _ (django : Django) (options : Options) (password : Text) where
  -- The rest of `_bootstrap_role_user_once`, with the user that was found or created.
  unfoldable pub settle : Bool → ℕ → System → Outcome BootstrapFailure (System × BootstrapChanges)
  unfolding has_other_business_role requires_role_assignment assign_role
  settle created user s = do
    raise_if
        (options.reject_other_business_role
          && has_other_business_role user options.role s.directory)
        other_business_role
    let assigned = requires_role_assignment user options.role s.directory
    directory ← or_raise (assign_if assigned user options.role s.directory) does_not_exist
    let reset = options.reset_password && not created
    let changes : BootstrapChanges = record {
      user = user;
      created = created;
      role_assigned = assigned;
      password_reset = reset;
    }
    ok (
      record {
        users = set_password reset user (django.make_password password) s.users;
        directory = directory;
        audit = if created || assigned || reset then s.audit ++ changes ∷ [] else s.audit;
      },
      changes,
    )

  abbrev pub insert_user : Text → ℕ → System → System
  insert_user username fresh s = record s {
    users =
        s.users
        ++ record { id = fresh; username = username; password = django.make_password password }
          ∷ [];
    directory = record s.directory { users = s.directory.users ++ fresh ∷ [] };
  }

  -- `user.save()`; where another session has inserted the username, the unique constraint is
  -- violated and its user is taken.
  abbrev pub save_user :
      Text → ℕ → System → Option User → Outcome BootstrapFailure (System × BootstrapChanges)
  save_user username fresh s none = settle true fresh (insert_user username fresh s)
  save_user username fresh s (some u) = settle false u.id s

  abbrev pub with_found :
      Text → ℕ → ℕ → System → Option User → Outcome BootstrapFailure (System × BootstrapChanges)
  with_found username fresh attempt s (some u) = settle false u.id s
  with_found username fresh attempt s none =
      let now = django.before_save attempt s in
      save_user username fresh now (find_user username now.users)

  -- `_bootstrap_role_user_once`
  unfoldable pub bootstrap_role_user_once :
      Text → ℕ → ℕ → System → Outcome BootstrapFailure (System × BootstrapChanges)
  unfolding settle
  bootstrap_role_user_once username fresh attempt s =
      with_found username fresh attempt s (find_user username s.users)

  -- The loop over the attempts, of which so many are left.
  unfoldable pub attempts :
      Text → ℕ → ℕ → ℕ → System → Outcome BootstrapFailure (System × BootstrapChanges)
  unfolding bootstrap_role_user_once
  attempts username fresh zero attempt s = err operational_error
  attempts username fresh (suc left) attempt s =
      let again = attempts username fresh left (attempt + 1) s in
      elim (django.raises attempt) [
        | none ↦ bootstrap_role_user_once username fresh attempt s
        | some locked ↦ if not locked || left == 0 then err operational_error else again
      ]

module _ (django : Django) (options : Options) where
  -- `_normalize_username`
  abbrev pub normalized : Text
  normalized = strip (django.normalize_username options.username)

  -- The tests of `bootstrap_role_user` on the name.
  abbrev pub require_username : Text → Outcome BootstrapFailure (Unit {0})
  require_username username = do
    raise_if (is_empty username) no_username
    guard (not options.strict_username || django.accepts_username username) bad_username

  abbrev input_failure : Outcome PasswordFailure Text → Outcome BootstrapFailure Text
  input_failure (ok password) = ok password
  input_failure (err e) = err (bad_input e)

  -- The password that was read, if it is good enough for the user.
  unfoldable pub require_password : Text → Outcome BootstrapFailure Text
  unfolding read_password
  require_password username = do
    password ← input_failure (
        read_password options.password_stdin options.password_from_stdin_only options.input
          options.environment)
    raise_if (is_empty (strip password)) no_password
    guard (django.accepts_password password username) weak_password
    ok password

  -- `bootstrap_role_user`, with `MAX_DATABASE_LOCK_RETRIES` attempts.
  unfoldable pub bootstrap_role_user :
      ℕ → System → Outcome BootstrapFailure (System × BootstrapChanges)
  unfolding attempts require_password
  bootstrap_role_user fresh s = do
    require_username normalized
    password ← require_password normalized
    attempts django options password normalized fresh 20 0 s
