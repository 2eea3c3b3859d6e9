-- ===== src/Transaction/Identity/Laws.antt =====
-- What the canonical form of an identifier keeps and what it forgets.
use emovis_micro_service.Base.{
  ℕ, ◌≤◌, Text, Bool, ◌&&◌, ◌||◌, leb, if◌then◌else◌, [], ◌∷◌, ◌++◌, ◌≡◌, refl, arith, All, ◌⊎◌,
  map,
}
use emovis_micro_service.Base.Case.{upper_byte}
use emovis_micro_service.Transaction.Identity.{canonicalize}

-- An upper-case letter or a digit.
abbrev pub IsKeyByte : ℕ → Type 0
IsKeyByte c = ((b'A' ≤ c) × (c ≤ b'Z')) ⊎ ((b'0' ≤ c) × (c ≤ b'9'))

-- A letter of either case or a digit.
abbrev pub is_alphanumeric : ℕ → Bool
is_alphanumeric c =
    (leb b'a' c && leb c b'z') || (leb b'A' c && leb c b'Z') || (leb b'0' c && leb c b'9')

-- The bytes that a text keeps, in order.
pub keep_alphanumeric : Text → Text
keep_alphanumeric [] = []
keep_alphanumeric (c ∷ s) =
    let rest = keep_alphanumeric s in if is_alphanumeric c then c ∷ rest else rest

pub canonicalize-append : (s t : Text) → canonicalize (s ++ t) ≡ canonicalize s ++ canonicalize t
unfolding canonicalize
canonicalize-append [] t = refl
canonicalize-append (c ∷ s) t = ground (arith, canonicalize-append s t)

pub canonicalize-IsKeyByte : (s : Text) → All IsKeyByte (canonicalize s)
unfolding canonicalize
canonicalize-IsKeyByte [] = tt
canonicalize-IsKeyByte (c ∷ s) = ground (arith, canonicalize-IsKeyByte s)

pub canonicalize_of_key : (s : Text) → All IsKeyByte s → canonicalize s ≡ s
unfolding canonicalize
canonicalize_of_key [] h = refl
canonicalize_of_key (c ∷ s) (p, h) = ground (arith, canonicalize_of_key s h)

-- Canonicalizing keeps exactly the letters and digits, in order, with the letters raised.
pub canonicalize-eq-map_upper : (s : Text) → canonicalize s ≡ map upper_byte (keep_alphanumeric s)
unfolding canonicalize keep_alphanumeric
canonicalize-eq-map_upper [] = refl
canonicalize-eq-map_upper (c ∷ s) = ground (arith, canonicalize-eq-map_upper s)
