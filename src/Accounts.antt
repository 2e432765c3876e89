-- ===== src/Accounts.antt =====
-- apps/accounts: the business roles, their assignment, the guard of every finance operation (roles.py),
-- and the creation of the first users with a password that is read (bootstrap.py). The
-- authentication tables of Django are a record of their rows.
pub mod Roles
pub mod Exclusive
pub mod Password
pub mod Lines
pub mod OneLine
pub mod Bootstrap
pub mod Bootstrapped
mod Tests
