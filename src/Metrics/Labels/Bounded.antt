-- ===== src/Metrics/Labels/Bounded.antt =====
-- The values of the label, over interleaved calls.
use emovis_micro_service.Base.{
  ℕ, ◌≤◌, ◌≡◌, ◌⊎◌, inl, inr, refl, arith, ◌∙◌, Text, text_eq_refl, true, false, is_empty, ltb, leb,
  length, take, List, [], ◌∷◌, some, All, Bool-cases, Option-cases, zero, suc,
}
use emovis_micro_service.Metrics.Labels.{
  SourceLabels, is_seen, truncated, under_read_lock, under_write_lock, Section, reads, writes,
  sections, source_overflow, source_unknown, label, tracked,
}

-- No more sources than the limit, none of them too long, and none twice.
unfoldable pub AllDistinct : List Text → Type 0
AllDistinct [] = Unit
AllDistinct (s ∷ seen) = (is_seen s seen ≡ false) × AllDistinct seen

pub record IsBounded (s : SourceLabels) : Type 0 where
  pub count : length s.seen ≤ s.limit
  pub distinct : AllDistinct s.seen
  pub short : All (λ source. length source ≤ 64) s.seen

length-take : (n : ℕ) (t : Text) → length (take n t) ≤ n
length-take zero t = omega arith
length-take (suc n) [] = omega arith
length-take (suc n) (b ∷ t) = omega (arith, length-take n t)

truncated-short : (source : Text) → length (truncated source) ≤ 64
unfolding truncated
truncated-short source = elim (Bool-cases (ltb 64 (length source))) [
  | inl long ↦ rw (long, truncated) (length-take 64 source)
  | inr fits ↦ rw (fits, truncated) (ground arith)
]

under_write_lock-IsBounded :
    (source : Text) (s : SourceLabels)
    → length source ≤ 64
    → IsBounded s
    → IsBounded (under_write_lock source s).0
unfolding under_write_lock AllDistinct
under_write_lock-IsBounded source s short h = elim (Bool-cases (is_seen source s.seen)) [
  | inl known ↦ simp (known, under_write_lock) h
  | inr new ↦ elim (Bool-cases (leb s.limit (length s.seen))) [
    | inl full ↦ simp (new, full, under_write_lock) h
    | inr room ↦
        simp (new, room, under_write_lock)
          (record {
            count = (ground arith);
            distinct = (new, h.distinct);
            short = (short, h.short);
          })
  ]
]

-- A source that was seen stays so.
abbrev pub Grows : SourceLabels → SourceLabels → Type 0
Grows s s' = (source : Text) → is_seen source s.seen ≡ true → is_seen source s'.seen ≡ true

under_write_lock-Grows : (source : Text) (s : SourceLabels) → Grows s (under_write_lock source s).0
unfolding under_write_lock is_seen
under_write_lock-Grows source s t h = ground arith

same_limit : (source : Text) (s : SourceLabels) → (under_write_lock source s).0.limit ≡ s.limit
unfolding under_write_lock
same_limit source s = ground arith

-- What a call returns: a source that is tracked, or `other`.
abbrev pub Known : SourceLabels → Text → Type 0
Known s value = (is_seen value s.seen ≡ true) ⊎ (value ≡ source_overflow)

under_write_lock-Known :
    (source : Text) (s : SourceLabels)
    → Known (under_write_lock source s).0 (under_write_lock source s).1
unfolding under_write_lock is_seen
under_write_lock-Known source s = ground (arith, text_eq_refl source)

under_read_lock-Known :
    (source : Text) (s : SourceLabels) (value : Text)
    → under_read_lock source s ≡ some value
    → Known s value
unfolding under_read_lock
under_read_lock-Known source s value h = ground arith

Known-Grows : (s s' : SourceLabels) (value : Text) → Grows s s' → Known s value → Known s' value
Known-Grows s s' value g (inl h) = inl (g value h)
Known-Grows s s' value g (inr h) = inr h

-- However many calls interleave, and in whatever order they get the locks: the tracked sources stay
-- within the limit, distinct and at most 64 bytes long, none is dropped, the limit stays, and every
-- label returned is one of them or `other`.
pub sections-IsBounded :
    (todo : List Section) (s : SourceLabels)
    → IsBounded s
    → IsBounded (sections todo s).0
      × Grows s (sections todo s).0
      × ((sections todo s).0.limit ≡ s.limit)
      × All (Known (sections todo s).0) (sections todo s).1
unfolding sections
sections-IsBounded [] s h = (h, λ t k. k, refl, tt)
sections-IsBounded (reads source ∷ rest) s h =
    let (b, g, l, k) = sections-IsBounded rest s h in
    elim (Option-cases (under_read_lock (truncated source) s)) [
      | inl waits ↦ simp (waits, sections) (b, g, l, k)
      | inr (value, known) ↦
          simp (known, sections)
            (
              b,
              g,
              l,
              (
                Known-Grows s (sections rest s).0 value g
                    (under_read_lock-Known (truncated source) s value known),
                k,
              ),
            )
    ]
sections-IsBounded (writes source ∷ rest) s h =
    let s₁ = (under_write_lock (truncated source) s).0 in
    let (b, g, l, k) =
      sections-IsBounded rest s₁
        (under_write_lock-IsBounded (truncated source) s (truncated-short source) h) in
    (
      b,
      λ t seen. g t (under_write_lock-Grows (truncated source) s t seen),
      l ∙ same_limit (truncated source) s,
      (
        Known-Grows s₁ (sections rest s₁).0 (under_write_lock (truncated source) s).1 g
            (under_write_lock-Known (truncated source) s),
        k,
      ),
    )

-- What the metrics are counted under.
abbrev pub IsLabel : SourceLabels → Text → Type 0
IsLabel s value = Known s value ⊎ (value ≡ source_unknown)

pub label-IsBounded :
    (source : Text) (s : SourceLabels)
    → IsBounded s
    → IsBounded (label source s).0
      × Grows s (label source s).0
      × ((label source s).0.limit ≡ s.limit)
      × IsLabel (label source s).0 (label source s).1
unfolding label
label-IsBounded source s h = elim (Bool-cases (is_empty source)) [
  | inl none_given ↦ simp (none_given, label) (h, λ t k. k, refl, inr refl)
  | inr given ↦ elim (Option-cases (under_read_lock (truncated source) s)) [
    | inr (value, known) ↦
        simp (given, known, label)
          (h, λ t k. k, refl, inl (under_read_lock-Known (truncated source) s value known))
    | inl waits ↦
        simp (given, waits, label)
          (
            under_write_lock-IsBounded (truncated source) s (truncated-short source) h,
            under_write_lock-Grows (truncated source) s,
            same_limit (truncated source) s,
            inl (under_write_lock-Known (truncated source) s),
          )
  ]
]

-- The label of a source of 1 to 64 bytes is the source or `other`; it is the source, and tracked from
-- then on, where the source is tracked or there is room.
pub label-same :
    (source : Text) (s : SourceLabels)
    → is_empty source ≡ false
    → length source ≤ 64
    → (((label source s).1 ≡ source) × (is_seen source (label source s).0.seen ≡ true))
      ⊎ (((label source s).1 ≡ source_overflow)
          × ((is_seen source s.seen ≡ false) × (s.limit ≤ tracked s)))
unfolding label under_read_lock under_write_lock truncated is_seen tracked
label-same source s nonempty short = ground (arith, text_eq_refl source)
