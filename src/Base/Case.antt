-- ===== src/Base/Case.antt =====
-- `strings.ToLower` and `strings.ToUpper`. Both have a path for ASCII, which is written out, and
-- otherwise map every rune by the Unicode tables, which are a parameter.
use mathlib.Core.Bool.{Bool, true, ◌&&◌}
use Prim.Native.Nat.{ℕ, ◌+◌, ◌-◌}
use mathlib.Core.List.{[], ◌∷◌, map}
use mathlib.Core.Path.{◌≡◌}
use native.Mathlib.Omega.{arith}
use emovis_micro_service.Base.Tests.{leb, ltb, if◌then◌else◌}
use emovis_micro_service.Base.Lists.{all}
use emovis_micro_service.Base.Bytes.{Text}

-- What the Unicode tables make of a text that is not ASCII.
pub record CaseTables : Type 0 where
  pub lower_runes : Text → Text
  pub upper_runes : Text → Text

unfoldable pub is_ascii : Text → Bool
is_ascii s = all (λ b. ltb b 128) s

abbrev pub lower_byte : ℕ → ℕ
lower_byte b = if leb b'A' b && leb b b'Z' then b + 32 else b

abbrev pub upper_byte : ℕ → ℕ
upper_byte b = if leb b'a' b && leb b b'z' then b - 32 else b

module _ (tables : CaseTables) where
  unfoldable pub to_lower : Text → Text
  unfolding is_ascii
  to_lower s = if is_ascii s then map lower_byte s else tables.lower_runes s

  unfoldable pub to_upper : Text → Text
  unfolding is_ascii
  to_upper s = if is_ascii s then map upper_byte s else tables.upper_runes s

-- Mapping the letters of an ASCII text keeps it ASCII.
pub is_ascii-map_lower : (s : Text) → is_ascii s ≡ true → is_ascii (map lower_byte s) ≡ true
unfolding is_ascii
is_ascii-map_lower [] h = h
is_ascii-map_lower (b ∷ s) h = ground (arith, is_ascii-map_lower s)

pub is_ascii-map_upper : (s : Text) → is_ascii s ≡ true → is_ascii (map upper_byte s) ≡ true
unfolding is_ascii
is_ascii-map_upper [] h = h
is_ascii-map_upper (b ∷ s) h = ground (arith, is_ascii-map_upper s)

map-lower_byte-upper_byte : (s : Text) → map lower_byte (map upper_byte s) ≡ map lower_byte s
map-lower_byte-upper_byte [] = ground arith
map-lower_byte-upper_byte (b ∷ s) = ground (arith, map-lower_byte-upper_byte s)

map-lower_byte-lower_byte : (s : Text) → map lower_byte (map lower_byte s) ≡ map lower_byte s
map-lower_byte-lower_byte [] = ground arith
map-lower_byte-lower_byte (b ∷ s) = ground (arith, map-lower_byte-lower_byte s)
