-- ===== src/Money.antt =====
-- internal/money: exact amounts. `decimal.Decimal` is a third-party type and a parameter.
pub mod Currency
pub mod Decimal
pub mod Syntax
pub mod Amount
