-- ===== src/HttpApi/Middleware/RequestIds.antt =====
-- internal/httpapi/middleware/requestid.go: the identifier of a request.
use emovis_micro_service.Base.{
  ◌-◌, ℕ, ◌+◌, ◌*◌, ◌/◌, ◌%◌, ◌≤◌, ◌<◌, ◌≡◌, ◌⊎◌, refl, arith, Text, ltb, length, is_empty, ◌||◌,
  if◌then◌else◌, List, [], ◌∷◌, Bool-cases, inl, inr,
}
use emovis_micro_service.HttpApi.Middleware.{HttpRequest}
use emovis_micro_service.HttpApi.Middleware.Accounting.{inner_request}

-- A digit of `hex.EncodeToString`.
unfoldable pub hex_digit : ℕ → ℕ
hex_digit n = if ltb n 10 then b'0' + n else b'a' + (n - 10)

unfoldable pub hex : List ℕ → Text
hex [] = []
hex (b ∷ bytes) = hex_digit (b / 16) ∷ hex_digit (b % 16) ∷ hex bytes

-- `newRequestID`, from the bytes that are drawn.
unfoldable pub new_request_id : List ℕ → Text
unfolding hex
new_request_id bytes = hex bytes

length-hex : (bytes : List ℕ) → length (hex bytes) ≡ 2 * length bytes
unfolding hex
length-hex [] = refl
length-hex (b ∷ bytes) = omega (arith, length-hex bytes)

-- The identifier is the inbound one, or a fresh one where that is empty or too long.
abbrev chosen : Text → Text → Text
chosen inbound fresh = if is_empty inbound || ltb 128 (length inbound) then fresh else inbound

chosen-bounded :
    (inbound fresh : Text)
    → length fresh ≡ 32
    → (0 < length (chosen inbound fresh))
      × (length (chosen inbound fresh) ≤ 128)
      × ((chosen inbound fresh ≡ inbound)
          ⊎ ((length (chosen inbound fresh) ≡ 32) × ((inbound ≡ []) ⊎ (128 < length inbound))))
chosen-bounded [] fresh h = (omega arith, omega arith, inr (h, inl refl))
chosen-bounded (b ∷ t) fresh h = elim (Bool-cases (ltb 128 (length (b ∷ t)))) [
  | inl long ↦ rw long (omega arith, omega arith, inr (h, inr (ground arith)))
  | inr fits ↦ rw fits (omega arith, ground arith, inl refl)
]

-- With 16 bytes drawn: the identifier of a request has 1 to 128 bytes, and it is the producer's where
-- that has; a fresh one has 32.
pub inner_request-bounded :
    (bytes : List ℕ) (r : HttpRequest)
    → length bytes ≡ 16
    → let id = (inner_request (new_request_id bytes) r).request_id in
      (0 < length id)
      × (length id ≤ 128)
      × ((id ≡ r.inbound_id)
          ⊎ ((length id ≡ 32) × ((r.inbound_id ≡ []) ⊎ (128 < length r.inbound_id))))
unfolding new_request_id inner_request
inner_request-bounded bytes r h =
    let size = length-hex bytes in chosen-bounded r.inbound_id (new_request_id bytes) (omega arith)
