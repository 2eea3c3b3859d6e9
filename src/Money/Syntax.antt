-- ===== src/Money/Syntax.antt =====
-- internal/money/money.go: `decimalSyntax` and `decimalPlaces`, on the text of an amount.
pub mod Grammar
use emovis_micro_service.Base.{
  ℕ, zero, suc, ◌+◌, ◌-◌, Text, Bool, true, false, ◌&&◌, leb, ◌==◌, if◌then◌else◌, List, [], ◌∷◌,
  all, ℤ, pos, int32, Option, none, some, length,
}

abbrev pub is_digit : ℕ → Bool
is_digit b = leb b'0' b && leb b b'9'

-- What is left behind the longest run of digits.
unfoldable pub skip_digits : Text → Text
skip_digits [] = []
skip_digits (b ∷ s) = let rest = skip_digits s in if is_digit b then rest else b ∷ s

-- `[0-9]+$`
unfoldable pub all_digits : Text → Bool
all_digits [] = false
all_digits (b ∷ s) = is_digit b && all is_digit s

-- `(\.[0-9]+)?$`
unfoldable pub matches_fraction : Text → Bool
unfolding all_digits
matches_fraction [] = true
matches_fraction (b ∷ s) = b == b'.' && all_digits s

-- `[0-9]+(\.[0-9]+)?$`: a run of digits is taken whole, since what follows it is no digit.
unfoldable pub matches_unsigned : Text → Bool
unfolding skip_digits matches_fraction
matches_unsigned [] = false
matches_unsigned (b ∷ s) = is_digit b && matches_fraction (skip_digits s)

-- `^-?[0-9]+(\.[0-9]+)?$`
unfoldable pub match_string : Text → Bool
unfolding matches_unsigned
match_string [] = false
match_string (b ∷ s) = if b == b'-' then matches_unsigned s else matches_unsigned (b ∷ s)

-- The index of the last byte `.`, which the loop of `decimalPlaces` finds from the end.
unfoldable pub last_dot : Text → Option ℕ
last_dot [] = none
last_dot (b ∷ s) = elim (last_dot s) [
  | some i ↦ some (suc i)
  | none ↦ if b == b'.' then some 0 else none
]

unfoldable pub decimal_places : Text → ℤ
unfolding last_dot
decimal_places raw = elim (last_dot raw) [ some i ↦ int32 (length raw - i - 1) | none ↦ pos 0 ]
