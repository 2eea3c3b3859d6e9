-- ===== src/Base/Space.antt =====
-- `strings.TrimSpace` over UTF-8 bytes: the white space of Unicode, one to three bytes wide. A byte
-- that is not part of a well-formed space is left alone, as a decoding error is no space.
use mathlib.Core.List.{[], ◌∷◌, reverse}
use mathlib.Core.Bool.{Bool, ◌&&◌, ◌||◌}
use Prim.Native.Nat.{ℕ, zero, suc}
use emovis_micro_service.Base.Tests.{◌==◌, leb, if◌then◌else◌}
use emovis_micro_service.Base.Bytes.{Text}

-- tab, line feed, vertical tab, form feed, carriage return, blank
abbrev ascii_space : ℕ → Bool
ascii_space b = (leb 9 b && leb b 13) || b == 32

-- U+0085, U+00A0
abbrev space_two : ℕ → ℕ → Bool
space_two a b = a == 0xC2 && (b == 0x85 || b == 0xA0)

-- U+1680, U+2000 to U+200A, U+2028, U+2029, U+202F, U+205F, U+3000
abbrev space_three : ℕ → ℕ → ℕ → Bool
space_three a b c =
    (a == 0xE1 && (b == 0x9A && c == 0x80))
    || (a == 0xE2
        && ((b == 0x80 && ((leb 0x80 c && leb c 0x8A) || c == 0xA8 || c == 0xA9 || c == 0xAF))
            || (b == 0x81 && c == 0x9F)))
    || (a == 0xE3 && (b == 0x80 && c == 0x80))

-- How many bytes the space at the front takes, 0 where there is none.
space_width : Text → ℕ
space_width [] = 0
space_width (a ∷ []) = if ascii_space a then 1 else 0
space_width (a ∷ b ∷ []) = if ascii_space a then 1 else if space_two a b then 2 else 0
space_width (a ∷ b ∷ c ∷ _) =
    if ascii_space a then 1 else if space_two a b then 2 else if space_three a b c then 3 else 0

-- The same at the end of a text that is read backwards.
space_width_back : Text → ℕ
space_width_back [] = 0
space_width_back (c ∷ []) = if ascii_space c then 1 else 0
space_width_back (c ∷ b ∷ []) = if ascii_space c then 1 else if space_two b c then 2 else 0
space_width_back (c ∷ b ∷ a ∷ _) =
    if ascii_space c then 1 else if space_two b c then 2 else if space_three a b c then 3 else 0

-- Drops spaces from the front; the number counts the bytes of a space still to be dropped.
skip_space : (Text → ℕ) → ℕ → Text → Text
skip_space width n [] = []
skip_space width (suc n) (b ∷ s) = skip_space width n s
skip_space width zero (b ∷ s) = elim (width (b ∷ s)) [ zero ↦ b ∷ s | suc n ↦ skip_space width n s ]

unfoldable pub trim_space : Text → Text
unfolding skip_space space_width space_width_back
trim_space s = reverse (skip_space space_width_back 0 (reverse (skip_space space_width 0 s)))
