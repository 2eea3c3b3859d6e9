-- ===== src/Base/Order.antt =====
-- `slices.Sort` on strings: texts are ordered by their bytes, and equal texts are the same, so that
-- every sorting algorithm gives this result.
use mathlib.Core.Bool.{Bool, true, false}
use mathlib.Core.Path.{◌≡◌, refl}
use native.Mathlib.Omega.{arith}
use mathlib.Core.List.{List, [], ◌∷◌}
use emovis_micro_service.Base.Tests.{◌==◌, ltb, if◌then◌else◌}
use emovis_micro_service.Base.Bytes.{Text}

unfoldable pub text_le : Text → Text → Bool
text_le [] t = true
text_le (x ∷ s) [] = false
text_le (x ∷ s) (y ∷ t) = if ltb x y then true else if x == y then text_le s t else false

pub text_le_total : (s t : Text) → text_le s t ≡ false → text_le t s ≡ true
unfolding text_le
text_le_total [] t h = ground arith
text_le_total (x ∷ s) [] h = ground arith
text_le_total (x ∷ s) (y ∷ t) h = ground (arith, text_le_total s t)

pub text_le_antisymm : (s t : Text) → text_le s t ≡ true → text_le t s ≡ true → s ≡ t
unfolding text_le
text_le_antisymm [] [] h k = refl
text_le_antisymm [] (y ∷ t) h k = ground arith
text_le_antisymm (x ∷ s) [] h k = ground arith
text_le_antisymm (x ∷ s) (y ∷ t) h k = ground (arith, text_le_antisymm s t)

pub text_le_trans : (s t u : Text) → text_le s t ≡ true → text_le t u ≡ true → text_le s u ≡ true
unfolding text_le
text_le_trans [] t u h k = refl
text_le_trans (x ∷ s) [] u h k = ground arith
text_le_trans (x ∷ s) (y ∷ t) [] h k = ground arith
text_le_trans (x ∷ s) (y ∷ t) (z ∷ u) h k = ground (arith, text_le_trans s t u)

-- Puts a text in front of the first that is not below it.
unfoldable pub insert : Text → List Text → List Text
insert s [] = s ∷ []
insert s (t ∷ ts) = if text_le s t then s ∷ t ∷ ts else t ∷ insert s ts

unfoldable pub sort : List Text → List Text
unfolding insert
sort [] = []
sort (s ∷ ts) = insert s (sort ts)

-- The order of two insertions does not matter.
pub insert_comm : (s t : Text) (us : List Text) → insert s (insert t us) ≡ insert t (insert s us)
unfolding insert
insert_comm s t [] = ground (arith, text_le_total s t, text_le_antisymm s t)
insert_comm s t (u ∷ us) = ground (
  arith,
  insert_comm s t us,
  text_le_total s t,
  text_le_total t s,
  text_le_antisymm s t,
  text_le_trans s t u,
  text_le_trans t s u,
  text_le_total s u,
  text_le_total t u,
)
