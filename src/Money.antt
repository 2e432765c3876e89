-- ===== src/Money.antt =====
-- Python's `Decimal` amounts, as far as the services use them.
pub mod Amount
pub mod Rounding
