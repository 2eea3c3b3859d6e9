-- ===== src/Transaction/Identity.antt =====
-- internal/transaction/identity.go: plates, transponders and their canonical keys.
pub mod Laws
use emovis_micro_service.Base.{
  is_empty, ℕ, ◌-◌, Text, Bool, true, false, ◌&&◌, ◌||◌, leb, if◌then◌else◌, List, [], ◌∷◌, text_eq,
}

pub record Plate : Type 0 where
  pub number : Text
  pub jurisdiction : Text
  pub number_key : Text
  pub jurisdiction_key : Text

pub record Transponder : Type 0 where
  pub number : Text
  pub number_key : Text

-- The loop of `canonicalize` over the bytes: a lower-case letter is raised, an upper-case letter or
-- a digit is kept, and any other byte is dropped.
unfoldable pub canonicalize : Text → Text
canonicalize [] = []
canonicalize (c ∷ s) =
    let rest = canonicalize s in
    if leb b'a' c && leb c b'z'
    then (c - (b'a' - b'A')) ∷ rest
    else if (leb b'A' c && leb c b'Z') || (leb b'0' c && leb c b'9')
    then c ∷ rest
    else rest

unfoldable pub new_plate : Text → Text → Plate
new_plate number jurisdiction = record {
  number = number;
  jurisdiction = jurisdiction;
  number_key = canonicalize number;
  jurisdiction_key = canonicalize jurisdiction;
}

unfoldable pub new_transponder : Text → Transponder
new_transponder number = record { number = number; number_key = canonicalize number }

unfoldable pub plate_is_empty : Plate → Bool
plate_is_empty p = is_empty p.number_key

unfoldable pub transponder_is_empty : Transponder → Bool
transponder_is_empty t = is_empty t.number_key
