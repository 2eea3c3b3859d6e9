-- ===== src/Base/Members.antt =====
-- Membership in a list, with the place where the element stands.
use mathlib.Core.List.{List, [], ◌∷◌, map, Memᴰ}
use mathlib.Core.Path.{◌≡◌, refl, sym, ap, subst}
use emovis_micro_service.Base.Lists.{All}

pub All-Memᴰ {ℓ κ} :
    {A : Type ℓ} (P : A → Type κ) (x : A) (xs : List A) → All P xs → Memᴰ x xs → P x
All-Memᴰ P x [] h m = elim m [ ]
All-Memᴰ P x (y ∷ xs) (p, h) (Memᴰ.head e) = subst P (sym e) p
All-Memᴰ P x (y ∷ xs) (p, h) (Memᴰ.tail m) = All-Memᴰ P x xs h m

pub Memᴰ-map {ℓ κ} :
    {A : Type ℓ} {B : Type κ} (f : A → B) (b : B) (xs : List A)
    → Memᴰ b (map f xs)
    → (a : A) × Memᴰ a xs × (f a ≡ b)
Memᴰ-map f b [] m = elim m [ ]
Memᴰ-map f b (x ∷ xs) (Memᴰ.head e) = (x, Memᴰ.head refl, sym e)
Memᴰ-map f b (x ∷ xs) (Memᴰ.tail m) = let (a, m', e) = Memᴰ-map f b xs m in (a, Memᴰ.tail m', e)

pub map-Memᴰ {ℓ κ} :
    {A : Type ℓ} {B : Type κ} (f : A → B) (a : A) (xs : List A) → Memᴰ a xs → Memᴰ (f a) (map f xs)
map-Memᴰ f a [] m = elim m [ ]
map-Memᴰ f a (x ∷ xs) (Memᴰ.head e) = Memᴰ.head (ap f e)
map-Memᴰ f a (x ∷ xs) (Memᴰ.tail m) = Memᴰ.tail (map-Memᴰ f a xs m)
