-- ===== src/Money/Syntax/Grammar.antt =====
-- The amounts that the syntax accepts, as a grammar, and how many decimal places they have.
use mathlib.Core.Path.{subst, sym}
use mathlib.Core.List.{append-nil}
use emovis_micro_service.Base.{
  is_empty, ℕ, ◌+◌, ◌≤◌, Text, true, false, ◌==◌, [], ◌∷◌, ◌++◌, all, int32, int32-small, none,
  some, length, length-append, ◌≡◌, refl, arith, All, ap, ◌↔◌, Bool-cases, inl, inr,
}
use emovis_micro_service.Money.Syntax.{
  is_digit, skip_digits, matches_fraction, matches_unsigned, match_string, last_dot, decimal_places,
}

abbrev pub IsDigit : ℕ → Type 0
IsDigit b = (b'0' ≤ b) × (b ≤ b'9')

-- One digit or more.
abbrev pub IsNumber : Text → Type 0
IsNumber [] = ⊥
IsNumber (b ∷ s) = IsDigit b × All IsDigit s

pub data Fraction : Text → Type 0 where
  no_fraction : Fraction []
  fraction : (s : Text) → IsNumber s → Fraction (b'.' ∷ s)

pub data Unsigned : Text → Type 0 where
  unsigned : (whole rest : Text) → IsNumber whole → Fraction rest → Unsigned (whole ++ rest)

-- An optional minus, digits, and an optional point with digits behind it.
pub data Amount : Text → Type 0 where
  positive : (s : Text) → Unsigned s → Amount s
  negative : (s : Text) → Unsigned s → Amount (b'-' ∷ s)

all_digits_sound : (s : Text) → all is_digit s ≡ true → All IsDigit s
all_digits_sound [] h = tt
all_digits_sound (b ∷ s) h = ground (arith, all_digits_sound s)

all_digits_complete : (s : Text) → All IsDigit s → all is_digit s ≡ true
all_digits_complete [] h = refl
all_digits_complete (b ∷ s) h = ground (arith, all_digits_complete s)

-- Splits a text at the end of its leading digits.
skip_digits-split : (s : Text) → (whole : Text) × (s ≡ whole ++ skip_digits s) × All IsDigit whole
unfolding skip_digits
skip_digits-split [] = ([], refl, tt)
skip_digits-split (b ∷ s) = elim (Bool-cases (is_digit b)) [
  | inl d ↦
      let (whole, e, h) = skip_digits-split s in
      (b ∷ whole, rw d (ap (λ t. b ∷ t) e), (ground arith, h))
  | inr d ↦ ([], rw d, tt)
]

matches_fraction_sound : (s : Text) → matches_fraction s ≡ true → Fraction s
unfolding matches_fraction
matches_fraction_sound [] h = no_fraction
matches_fraction_sound (b ∷ []) h = ground arith
matches_fraction_sound (b ∷ c ∷ s) h =
    let dot : b ≡ b'.' = ground arith in
    rw dot (fraction (c ∷ s) (ground arith, all_digits_sound s (ground arith)))

pub matches_unsigned_sound : (s : Text) → matches_unsigned s ≡ true → Unsigned s
unfolding matches_unsigned
matches_unsigned_sound [] h = cc
matches_unsigned_sound (b ∷ s) h =
    let (whole, e, d) = skip_digits-split s in
    let frac : matches_fraction (skip_digits s) ≡ true = ground arith in
    let parsed : Unsigned ((b ∷ whole) ++ skip_digits s) =
      unsigned (b ∷ whole) (skip_digits s) (ground arith, d)
        (matches_fraction_sound (skip_digits s) frac) in
    subst (λ t. Unsigned (b ∷ t)) (sym e) parsed

skip_digits-Fraction : {s : Text} → Fraction s → skip_digits s ≡ s
unfolding skip_digits
skip_digits-Fraction no_fraction = refl
skip_digits-Fraction (fraction s h) = refl

skip_digits-append :
    (whole rest : Text) → All IsDigit whole → Fraction rest → skip_digits (whole ++ rest) ≡ rest
unfolding skip_digits
skip_digits-append [] rest h f = skip_digits-Fraction f
skip_digits-append (b ∷ whole) rest (d, h) f = ground (arith, skip_digits-append whole rest h f)

matches_fraction_complete : {s : Text} → Fraction s → matches_fraction s ≡ true
unfolding matches_fraction
matches_fraction_complete no_fraction = refl
matches_fraction_complete (fraction (b ∷ s) h) = ground (arith, all_digits_complete s h.1)
matches_fraction_complete (fraction [] h) = absurd h

matches_unsigned_complete : {s : Text} → Unsigned s → matches_unsigned s ≡ true
unfolding matches_unsigned
matches_unsigned_complete (unsigned [] rest h f) = absurd h
matches_unsigned_complete (unsigned (b ∷ whole) rest (d, h) f) =
    rw (skip_digits-append whole rest h f) (ground (arith, matches_fraction_complete f))

-- An unsigned amount does not begin with a minus.
no_minus : {s : Text} → Unsigned s → match_string s ≡ true
unfolding match_string
no_minus (unsigned [] rest h f) = absurd h
no_minus (unsigned (b ∷ whole) rest (d, h) f) =
    ground (arith, matches_unsigned_complete (unsigned (b ∷ whole) rest (d, h) f))

match_string_sound : (s : Text) → match_string s ≡ true → Amount s
unfolding match_string
match_string_sound [] h = cc
match_string_sound (b ∷ s) h = elim (Bool-cases (b == b'-')) [
  | inl minus ↦
      let same : b ≡ b'-' = ground arith in
      rw same (negative s (matches_unsigned_sound s (ground arith)))
  | inr plain ↦ positive (b ∷ s) (matches_unsigned_sound (b ∷ s) (ground arith))
]

match_string_complete : {s : Text} → Amount s → match_string s ≡ true
unfolding match_string
match_string_complete (positive s u) = no_minus u
match_string_complete (negative s u) = matches_unsigned_complete u

-- The syntax accepts exactly the texts of the grammar.
pub match_string_iff : (s : Text) → (match_string s ≡ true) ↔ Amount s
match_string_iff s = (match_string_sound s, match_string_complete)

-- How many digits stand behind the point.
abbrev pub fraction_places : {s : Text} → Fraction s → ℕ
fraction_places no_fraction = 0
fraction_places (fraction s h) = length s

abbrev pub unsigned_places : {s : Text} → Unsigned s → ℕ
unsigned_places (unsigned whole rest h f) = fraction_places f

abbrev pub places : {s : Text} → Amount s → ℕ
places (positive s u) = unsigned_places u
places (negative s u) = unsigned_places u

last_dot_of_digits : (s : Text) → All IsDigit s → last_dot s ≡ none
unfolding last_dot
last_dot_of_digits [] h = refl
last_dot_of_digits (b ∷ s) (d, h) = ground (arith, last_dot_of_digits s h)

last_dot-append :
    (s t : Text) (i : ℕ) → last_dot t ≡ some i → last_dot (s ++ t) ≡ some (length s + i)
unfolding last_dot
last_dot-append [] t i h = ground arith
last_dot-append (b ∷ s) t i h = ground (arith, last_dot-append s t i h)

number_digits : (s : Text) → IsNumber s → All IsDigit s
number_digits [] h = absurd h
number_digits (b ∷ s) h = h

decimal_places-append :
    (front : Text) {rest : Text}
    → last_dot front ≡ none
    → (f : Fraction rest) → decimal_places (front ++ rest) ≡ int32 (fraction_places f)
unfolding decimal_places
decimal_places-append front h no_fraction =
    rw (append-nil front) (ground (arith, int32-small 0 (omega arith)))
decimal_places-append front h (fraction s n) =
    let here : last_dot (b'.' ∷ s) ≡ some 0 =
      ground (arith, last_dot_of_digits s (number_digits s n)) in
    rw (last_dot-append front (b'.' ∷ s) 0 here, decimal_places)
      (ap int32 (omega (arith, length-append front (b'.' ∷ s))))

-- `decimalPlaces` counts the digits behind the point, as a 32-bit number.
pub decimal_places-places : {s : Text} (a : Amount s) → decimal_places s ≡ int32 (places a)
unfolding last_dot
decimal_places-places (positive _ (unsigned whole rest h f)) =
    decimal_places-append whole (last_dot_of_digits whole (number_digits whole h)) f
decimal_places-places (negative _ (unsigned whole rest h f)) =
    decimal_places-append (b'-' ∷ whole)
      (ground (arith, last_dot_of_digits whole (number_digits whole h))) f

pub Amount-nonempty : {s : Text} → Amount s → is_empty s ≡ false
Amount-nonempty (positive _ (unsigned [] rest h f)) = absurd h
Amount-nonempty (positive _ (unsigned (b ∷ whole) rest h f)) = refl
Amount-nonempty (negative _ u) = refl
