-- ===== src/Money/Currency/Table.antt =====
-- What a lookup in the currency table gives.
use mathlib.Core.Path.{subst}
use emovis_micro_service.Base.{
  Bool-cases, inl, inr, ℕ, ◌≤◌, Text, pos, List, [], ◌∷◌, some, text_eq, text_eq_iff, ◌≡◌, arith,
  All,
}
use emovis_micro_service.Base.Space.{trim_space}
use emovis_micro_service.Base.Case.{CaseTables, to_upper}
use emovis_micro_service.Money.Currency.{Currency, currencies, find_code, lookup}

-- Between no and three decimal places.
abbrev pub HasFewDecimals : Currency → Type 0
HasFewDecimals c = (n : ℕ) × (c.exponent ≡ pos n) × (n ≤ 3)

pub find_code-code :
    (key : Text) (cs : List Currency) (c : Currency) → find_code key cs ≡ some c → c.code ≡ key
unfolding find_code
find_code-code key [] c h = ground arith
find_code-code key (d ∷ cs) c h = ground (arith, text_eq_iff d.code key, find_code-code key cs c)

find_code-All :
    (P : Currency → Type 0) (key : Text) (cs : List Currency) (c : Currency)
    → All P cs
    → find_code key cs ≡ some c
    → P c
unfolding find_code
find_code-All P key [] c h e = cc
find_code-All P key (d ∷ cs) c (p, h) e = elim (Bool-cases (text_eq d.code key)) [
  | inl same ↦ let found : d ≡ c = ground arith in subst P found p
  | inr other ↦ find_code-All P key cs c h (rw other at e)
]

table-HasFewDecimals : All HasFewDecimals currencies
unfolding currencies
table-HasFewDecimals = ground arith

-- A currency that is found has the code that was asked for, trimmed and raised, and at most three
-- decimal places.
pub lookup_sound :
    (tables : CaseTables) (raw : Text) (c : Currency)
    → lookup tables raw ≡ some c
    → (c.code ≡ to_upper tables (trim_space raw)) × HasFewDecimals c
unfolding lookup
lookup_sound tables raw c h = (
  find_code-code (to_upper tables (trim_space raw)) currencies c h,
  find_code-All HasFewDecimals (to_upper tables (trim_space raw)) currencies c table-HasFewDecimals
      h,
)

-- The code of a currency of the table names it.
code_names_itself :
    (tables : CaseTables)
    → All (λ c. find_code (to_upper tables (trim_space c.code)) currencies ≡ some c) currencies
unfolding currencies find_code to_upper trim_space text_eq
code_names_itself tables = ground arith

-- A currency that was found is found again by its own code.
pub lookup-code :
    (tables : CaseTables) (raw : Text) (c : Currency)
    → lookup tables raw ≡ some c
    → lookup tables c.code ≡ some c
unfolding lookup
lookup-code tables raw c h =
    find_code-All (λ c. find_code (to_upper tables (trim_space c.code)) currencies ≡ some c)
      (to_upper tables (trim_space raw)) currencies c (code_names_itself tables) h
