-- ===== src/Base/Maps.antt =====
-- A Go map as an association list without repeated keys, over the comparison of its keys. The order
-- of the entries stands for nothing.
use emovis_micro_service.Base.Tests.{if◌then◌else◌}
use mathlib.Core.Bool.{Bool, true}
use mathlib.Core.Logic.{◌↔◌}
use mathlib.Core.Option.{Option, none, some}
use mathlib.Core.List.{List, [], ◌∷◌}
use mathlib.Core.Path.{◌≡◌, refl}
use native.Mathlib.Omega.{arith}
use Prim.Native.Nat.{◌+◌}
use emovis_micro_service.Base.Lists.{length}

module _ {K V : Type 0} (eq : K → K → Bool) where
  -- `m[key]` with `ok`
  unfoldable pub get : K → List (K × V) → Option V
  get key [] = none
  get key ((k, v) ∷ m) = if eq k key then some v else get key m

  -- `m[key] = value`
  unfoldable pub put : K → V → List (K × V) → List (K × V)
  put key value [] = (key, value) ∷ []
  put key value ((k, v) ∷ m) = if eq k key then (key, value) ∷ m else (k, v) ∷ put key value m

module _ {K V : Type 0} (eq : K → K → Bool) (eq_iff : (a b : K) → (eq a b ≡ true) ↔ (a ≡ b)) where
  pub get-put :
      (k j : K) (v : V) (m : List (K × V))
      → get eq j (put eq k v m) ≡ (if eq k j then some v else get eq j m)
  unfolding get put
  get-put k j v [] = refl
  get-put k j v ((i, w) ∷ m) = ground (arith, eq_iff k j, eq_iff i k, eq_iff i j, get-put k j v m)

  -- A new key makes the map one entry longer.
  pub length-put_new :
      (k : K) (v : V) (m : List (K × V)) → get eq k m ≡ none → length (put eq k v m) ≡ length m + 1
  unfolding get put
  length-put_new k v [] h = ground arith
  length-put_new k v ((i, w) ∷ m) h = ground (arith, length-put_new k v m)
