-- ===== src/Metrics/Labels.antt =====
-- internal/platform/metrics/labels.go: the values of the `source` label. A call takes the read lock
-- and then, for a value that is new, the write lock; other calls may come between the two.
pub mod Bounded
use emovis_micro_service.Base.{
  ℕ, Text, lit, text_eq, Bool, true, false, ◌||◌, is_empty, ltb, leb, length, take, if◌then◌else◌,
  List, [], ◌∷◌, ◌++◌, Option, none, some,
}

-- `sourceLabels`: the keys of the map, and the limit.
pub record SourceLabels : Type 0 where
  pub seen : List Text
  pub limit : ℕ

abbrev pub max_tracked_sources : ℕ
max_tracked_sources = 200

abbrev pub max_source_label_length : ℕ
max_source_label_length = 64

unfoldable pub source_overflow : Text
source_overflow = lit "other"

unfoldable pub source_unknown : Text
source_unknown = lit "unknown"

unfoldable pub new_source_labels : ℕ → SourceLabels
new_source_labels limit = record { seen = []; limit = limit }

unfoldable pub is_seen : Text → List Text → Bool
is_seen source [] = false
is_seen source (s ∷ seen) = text_eq s source || is_seen source seen

-- `source[:maxSourceLabelLength]` of a longer source
unfoldable pub truncated : Text → Text
truncated source =
    if ltb max_source_label_length (length source)
    then take max_source_label_length source
    else source

-- Under the read lock: the label, unless the write lock is needed.
unfoldable pub under_read_lock : Text → SourceLabels → Option Text
unfolding is_seen source_overflow
under_read_lock source s =
    if is_seen source s.seen
    then some source
    else if leb s.limit (length s.seen)
    then some source_overflow
    else none

-- Under the write lock
unfoldable pub under_write_lock : Text → SourceLabels → SourceLabels × Text
unfolding is_seen source_overflow
under_write_lock source s =
    if is_seen source s.seen
    then (s, source)
    else if leb s.limit (length s.seen)
    then (s, source_overflow)
    else (record s { seen = source ∷ s.seen }, source)

-- `label`, where no other call comes between.
unfoldable pub label : Text → SourceLabels → SourceLabels × Text
unfolding truncated under_read_lock under_write_lock source_unknown
label source s =
    if is_empty source then (s, source_unknown) else elim (under_read_lock (truncated source) s) [
      | some value ↦ (s, value)
      | none ↦ under_write_lock (truncated source) s
    ]

-- `tracked`
unfoldable pub tracked : SourceLabels → ℕ
tracked s = length s.seen

-- One lock section of a call of `label` for a source that is not empty. A section under the read lock
-- may leave the call waiting for the write lock.
pub data Section : Type 0 where
  reads : Text → Section
  writes : Text → Section

-- The sections of any number of calls, in the order in which they get the lock, and the labels that
-- they return. A writing section stands for a call whose reading section came before it and returned
-- nothing; that is not asked here, so that the order is free.
unfoldable pub sections : List Section → SourceLabels → SourceLabels × List Text
unfolding truncated under_read_lock under_write_lock
sections [] s = (s, [])
sections (reads source ∷ rest) s =
    let (s', values) = sections rest s in
    elim (under_read_lock (truncated source) s) [
      | some value ↦ (s', value ∷ values)
      | none ↦ (s', values)
    ]
sections (writes source ∷ rest) s =
    let (s₁, value) = under_write_lock (truncated source) s in
    let (s', values) = sections rest s₁ in (s', value ∷ values)
