-- ===== src/Base/Compact.antt =====
-- `slices.Compact`, which keeps the first of each run of equal texts, and what it makes of a sorted
-- list: the strictly increasing list of its members.
use mathlib.Core.Bool.{Bool, true, false, ◌||◌}
use mathlib.Core.Path.{◌≡◌, refl, ap, sym, subst, ◌∙◌}
use mathlib.Core.List.{List, [], ◌∷◌}
use native.Mathlib.Omega.{arith}
use emovis_micro_service.Base.Tests.{if◌then◌else◌}
use emovis_micro_service.Base.Lists.{All}
use emovis_micro_service.Base.Bytes.{Text, text_eq, text_eq_iff, text_eq_refl}
use emovis_micro_service.Base.Order.{
  text_le, text_le_total, text_le_antisymm, text_le_trans, insert, sort,
}

-- The rest of a list behind a kept text.
compact_after : Text → List Text → List Text
compact_after s [] = []
compact_after s (t ∷ ts) = let rest = compact_after t ts in if text_eq s t then rest else t ∷ rest

unfoldable pub compact : List Text → List Text
unfolding compact_after
compact [] = []
compact (s ∷ ts) = s ∷ compact_after s ts

abbrev pub member : Text → List Text → Bool
member a [] = false
member a (s ∷ ts) = text_eq s a || member a ts

-- Two lists with the same texts, in any order and number.
abbrev pub SameTexts : List Text → List Text → Type 0
SameTexts xs ys = (a : Text) → member a xs ≡ member a ys

-- Insertion that leaves a text out that is there already.
insert_new : Text → List Text → List Text
insert_new s [] = s ∷ []
insert_new s (t ∷ ts) =
    if text_le s t then (if text_eq s t then t ∷ ts else s ∷ t ∷ ts) else t ∷ insert_new s ts

compact_after-insert :
    (t s : Text) (us : List Text)
    → text_le s t ≡ false
    → compact_after t (insert s us) ≡ insert_new s (compact_after t us)
unfolding compact_after insert insert_new
compact_after-insert t s [] h = ground (arith, text_eq_iff t s, text_le_total s t)
compact_after-insert t s (u ∷ us) h = ground (
  arith,
  compact_after-insert u s us,
  text_eq_iff t u,
  text_eq_iff t s,
  text_eq_iff s u,
  text_le_total s t,
)

compact-insert : (s : Text) (ts : List Text) → compact (insert s ts) ≡ insert_new s (compact ts)
unfolding compact insert insert_new
compact-insert s [] = refl
compact-insert s (t ∷ ts) = ground (arith, compact_after-insert t s ts, text_eq_iff s t)

increasing_of : List Text → List Text
increasing_of [] = []
increasing_of (s ∷ ts) = insert_new s (increasing_of ts)

compact-sort : (ts : List Text) → compact (sort ts) ≡ increasing_of ts
unfolding sort increasing_of compact
compact-sort [] = refl
compact-sort (s ∷ ts) = compact-insert s (sort ts) ∙ ap (insert_new s) (compact-sort ts)

member-insert_new :
    (a s : Text) (ts : List Text) → member a (insert_new s ts) ≡ (text_eq s a || member a ts)
unfolding insert_new
member-insert_new a s [] = refl
member-insert_new a s (t ∷ ts) = ground (arith, member-insert_new a s ts, text_eq_iff s t)

member-increasing_of : (a : Text) (ts : List Text) → member a (increasing_of ts) ≡ member a ts
unfolding increasing_of
member-increasing_of a [] = refl
member-increasing_of a (s ∷ ts) =
    member-insert_new a s (increasing_of ts)
    ∙ ap (λ b. text_eq s a || b) (member-increasing_of a ts)

-- Every text is above `s`.
abbrev Above : Text → List Text → Type 0
Above s ts = All (λ t. text_le t s ≡ false) ts

abbrev pub IsIncreasing : List Text → Type 0
IsIncreasing [] = Unit
IsIncreasing (s ∷ ts) = Above s ts × IsIncreasing ts

Above-insert_new :
    (r s : Text) (ts : List Text) → text_le s r ≡ false → Above r ts → Above r (insert_new s ts)
unfolding insert_new
Above-insert_new r s [] h a = (h, tt)
Above-insert_new r s (t ∷ ts) h (p, a) = ground (arith, Above-insert_new r s ts h a)

Above-trans : (r s : Text) (ts : List Text) → text_le s r ≡ false → Above s ts → Above r ts
Above-trans r s [] h a = tt
Above-trans r s (t ∷ ts) h (p, a) =
    (ground (arith, text_le_total t s, text_le_trans s t r), Above-trans r s ts h a)

insert_new-IsIncreasing :
    (s : Text) (ts : List Text) → IsIncreasing ts → IsIncreasing (insert_new s ts)
unfolding insert_new
insert_new-IsIncreasing s [] h = (tt, tt)
insert_new-IsIncreasing s (t ∷ ts) (a, h) = ground (
  arith,
  text_eq_iff s t,
  text_le_antisymm s t,
  Above-trans s t ts,
  Above-insert_new t s ts,
  insert_new-IsIncreasing s ts h,
)

increasing_of-IsIncreasing : (ts : List Text) → IsIncreasing (increasing_of ts)
unfolding increasing_of
increasing_of-IsIncreasing [] = tt
increasing_of-IsIncreasing (s ∷ ts) =
    insert_new-IsIncreasing s (increasing_of ts) (increasing_of-IsIncreasing ts)

member-Above : (a s : Text) (ts : List Text) → Above s ts → member a ts ≡ true → text_le a s ≡ false
member-Above a s [] h m = cc
member-Above a s (t ∷ ts) (p, h) m = ground (arith, text_eq_iff t a, member-Above a s ts h)

heads-eq :
    (s t : Text) (ss ts : List Text)
    → IsIncreasing (s ∷ ss)
    → IsIncreasing (t ∷ ts)
    → SameTexts (s ∷ ss) (t ∷ ts)
    → s ≡ t
heads-eq s t ss ts (a, _) (b, _) m = ground (
  arith,
  m s,
  m t,
  text_eq_iff s s,
  text_eq_iff t t,
  text_eq_iff s t,
  text_eq_iff t s,
  member-Above s t ts b,
  member-Above t s ss a,
  text_le_total s t,
)

tails-same :
    (s : Text) (ss ts : List Text)
    → Above s ss
    → Above s ts
    → SameTexts (s ∷ ss) (s ∷ ts)
    → SameTexts ss ts
tails-same s ss ts a b m x =
    ground
      (arith, m x, text_eq_iff s x, member-Above x s ss a, member-Above x s ts b, text_le_total s s)

-- An increasing list is determined by its texts.
increasing_unique :
    (ss ts : List Text) → IsIncreasing ss → IsIncreasing ts → SameTexts ss ts → ss ≡ ts
increasing_unique [] [] h k m = refl
increasing_unique [] (t ∷ ts) h k m = cc (m t, text_eq_refl t)
increasing_unique (s ∷ ss) [] h k m = cc (m s, text_eq_refl s)
increasing_unique (s ∷ ss) (t ∷ ts) (a, h) (b, k) m =
    let e = heads-eq s t ss ts (a, h) (b, k) m in
    let above : Above s ts = subst (λ u. Above u ts) (sym e) b in
    let same : SameTexts (s ∷ ss) (s ∷ ts) = subst (λ u. SameTexts (s ∷ ss) (u ∷ ts)) (sym e) m in
    cc (e, increasing_unique ss ts h k (tails-same s ss ts a above same))

-- Sorting and compacting forgets the order and the number of the texts, and nothing else.
pub compact-sort-eq : (xs ys : List Text) → SameTexts xs ys → compact (sort xs) ≡ compact (sort ys)
compact-sort-eq xs ys m =
    compact-sort xs
    ∙ (increasing_unique (increasing_of xs) (increasing_of ys) (increasing_of-IsIncreasing xs)
          (increasing_of-IsIncreasing ys)
          (λ a. member-increasing_of a xs ∙ (m a ∙ sym (member-increasing_of a ys)))
        ∙ sym (compact-sort ys))

pub compact-sort-IsIncreasing : (xs : List Text) → IsIncreasing (compact (sort xs))
compact-sort-IsIncreasing xs = rw compact-sort (increasing_of-IsIncreasing xs)

pub member-compact-sort : (a : Text) (xs : List Text) → member a (compact (sort xs)) ≡ member a xs
member-compact-sort a xs = rw compact-sort (member-increasing_of a xs)
