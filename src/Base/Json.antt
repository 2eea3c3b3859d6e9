-- ===== src/Base/Json.antt =====
-- `map[string]any` as decoded from JSON. A number is the bit pattern of its float64.
use emovis_micro_service.Base.Bytes.{Text}
use mathlib.Core.Bool.{Bool}
use Prim.Native.Nat.{ℕ}

mutual
  pub data Json : Type 0 where
    null : Json
    bool : Bool → Json
    float : ℕ → Json
    str : Text → Json
    arr : Items → Json
    obj : Fields → Json

  pub data Items : Type 0 where
    nil : Items
    cons : Json → Items → Items

  pub data Fields : Type 0 where
    end : Fields
    field : Text → Json → Fields → Fields
