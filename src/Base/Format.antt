-- ===== src/Base/Format.antt =====
-- The verbs of `fmt` that the messages use: `%d` is written out, `%q` and the rendering of a
-- duration, which need the Unicode tables and are not relied on, are parameters.
use emovis_micro_service.Base.Tests.{ltb, if◌then◌else◌}
use emovis_micro_service.Base.Bytes.{Text}
use emovis_micro_service.Base.Int.{ℤ, pos, negsuc}
use Prim.Native.Nat.{ℕ, zero, suc, ◌+◌, ◌/◌, ◌%◌}
use mathlib.Core.List.{[], ◌∷◌}

pub record Formats : Type 0 where
  pub quote : Text → Text
  pub duration : ℕ → Text

-- The digits of `n`, in front of what is already written; the fuel `suc n` is enough.
digits : ℕ → ℕ → Text → Text
digits zero n acc = acc
digits (suc fuel) n acc =
    let rest = digits fuel (n / 10) ((b'0' + n % 10) ∷ acc) in
    if ltb n 10 then (b'0' + n) ∷ acc else rest

unfoldable pub decimal_text : ℤ → Text
unfolding digits
decimal_text (pos n) = digits (suc n) n []
decimal_text (negsuc n) = b'-' ∷ digits (suc (suc n)) (suc n) []
