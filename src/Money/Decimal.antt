-- ===== src/Money/Decimal.antt =====
-- What the program calls of github.com/shopspring/decimal, over an unknown type of decimals.
use emovis_micro_service.Base.{Text, Bool, ℤ, Result}

pub record DecimalApi (D : Type 0) : Type 0 where
  pub zero : D
  pub new_from_string : Text → Result Text D
  pub is_negative : D → Bool
  pub is_zero : D → Bool
  pub equal : D → D → Bool
  pub to_string : D → Text
  pub string_fixed : D → ℤ → Text
