-- ===== src/Health/Ready.antt =====
-- What a probe is told.
use emovis_micro_service.Base.{
  ℕ, Text, text_eq, List, [], ◌∷◌, none, All, ◌≡◌, ◌↔◌, ◌⊎◌, inl, inr, refl, arith, ap,
  Option-cases,
}
use emovis_micro_service.Base.Maps.{put}
use emovis_micro_service.Health.{
  up, down, CheckResult, Report, Ended, result_of, add_result, ready, new_report, SentCheck,
  sent_checks, handle_ready,
}

-- `ready` goes down and stays so.
ready-down : (ended : List Ended) (r : Report) → r.status ≡ down → (ready ended r).status ≡ down
unfolding ready add_result
ready-down [] r h = h
ready-down (e ∷ ended) r h = ready-down ended (add_result e r) (ground arith)

ready-up :
    (ended : List Ended) (r : Report)
    → r.status ≡ up
    → ((ready ended r).status ≡ up) ↔ All (λ e. e.failure ≡ none) ended
unfolding ready add_result
ready-up [] r h = (λ k. tt, λ k. h)
ready-up (e ∷ ended) r h = elim (Option-cases e.failure) [
  | inl passed ↦
      let (to, from) = ready-up ended (add_result e r) (ground arith) in
      (λ k. (passed, to k), λ k. from k.1)
  | inr (cause, failed) ↦
      let stays = ready-down ended (add_result e r) (ground arith) in
      (λ k. absurd (ground (arith, stays)), λ k. absurd (ground (arith, k.0)))
]

-- In whatever order the checks end, a probe is answered 200 exactly where every check passed, and 503
-- otherwise.
pub handle_ready_iff :
    (ended : List Ended)
    → (((handle_ready (ready ended new_report)).code ≡ 200) ↔ All (λ e. e.failure ≡ none) ended)
      × (((handle_ready (ready ended new_report)).code ≡ 200)
          ⊎ ((handle_ready (ready ended new_report)).code ≡ 503))
unfolding handle_ready
handle_ready_iff ended =
    let u = ready-up ended new_report refl in
    ((λ h. u.0 (ground arith), λ a. ground (arith, u.1 a)), ground arith)

-- The same checks with other errors.
abbrev pub OtherErrors : List Ended → List Ended → Type 0
OtherErrors [] [] = Unit
OtherErrors [] (f ∷ fs) = ⊥
OtherErrors (e ∷ es) [] = ⊥
OtherErrors (e ∷ es) (f ∷ fs) =
    (e.name ≡ f.name)
    × (e.latency ≡ f.latency)
    × ((e.failure ≡ none) ↔ (f.failure ≡ none))
    × OtherErrors es fs

sent : CheckResult → SentCheck
sent c = record { status = c.status; reason = c.reason; latency = c.latency }

sent_checks-put :
    (name : Text) (c : CheckResult) (checks : List (Text × CheckResult))
    → sent_checks (put text_eq name c checks) ≡ put text_eq name (sent c) (sent_checks checks)
unfolding sent_checks put sent
sent_checks-put name c [] = refl
sent_checks-put name c ((n, d) ∷ checks) = ground (arith, sent_checks-put name c checks)

result_of-sent :
    (e f : Ended)
    → e.latency ≡ f.latency
    → (e.failure ≡ none) ↔ (f.failure ≡ none)
    → sent (result_of e) ≡ sent (result_of f)
unfolding sent result_of
result_of-sent e f l h = elim (Option-cases e.failure) [
  | inl passed ↦ ground (arith, h.0 passed)
  | inr (cause, failed) ↦ elim (Option-cases f.failure) [
    | inl passed ↦ absurd (ground (arith, h.1 passed))
    | inr (cause', failed') ↦ ground arith
  ]
]

-- Two reports that send the same.
abbrev Alike : Report → Report → Type 0
Alike r r' = (r.status ≡ r'.status) × (sent_checks r.checks ≡ sent_checks r'.checks)

add_result-Alike :
    (e f : Ended) (r r' : Report)
    → e.name ≡ f.name
    → e.latency ≡ f.latency
    → (e.failure ≡ none) ↔ (f.failure ≡ none)
    → Alike r r'
    → Alike (add_result e r) (add_result f r')
unfolding add_result
add_result-Alike e f r r' n l h (s, c) = (
  (elim (Option-cases e.failure) [
    | inl passed ↦ ground (arith, h.0 passed)
    | inr (cause, failed) ↦ elim (Option-cases f.failure) [
      | inl passed ↦ absurd (ground (arith, h.1 passed))
      | inr (cause', failed') ↦ ground arith
    ]
  ]),
  ground (
    arith,
    sent_checks-put e.name (result_of e) r.checks,
    sent_checks-put f.name (result_of f) r'.checks,
    result_of-sent e f l h,
  ),
)

ready-Alike :
    (es fs : List Ended) (r r' : Report)
    → OtherErrors es fs
    → Alike r r'
    → Alike (ready es r) (ready fs r')
unfolding ready
ready-Alike [] [] r r' o a = a
ready-Alike [] (f ∷ fs) r r' o a = absurd o
ready-Alike (e ∷ es) [] r r' o a = absurd o
ready-Alike (e ∷ es) (f ∷ fs) r r' (n, l, h, o) a =
    ready-Alike es fs (add_result e r) (add_result f r') o (add_result-Alike e f r r' n l h a)

-- What a probe is answered does not depend on the texts of the errors: two runs of the same checks
-- that fail in the same places are answered alike, whatever the errors say.
pub handle_ready-private :
    (es fs : List Ended)
    → OtherErrors es fs
    → ((handle_ready (ready es new_report)).code ≡ (handle_ready (ready fs new_report)).code)
      × ((handle_ready (ready es new_report)).status ≡ (handle_ready (ready fs new_report)).status)
      × ((handle_ready (ready es new_report)).checks ≡ (handle_ready (ready fs new_report)).checks)
unfolding handle_ready
handle_ready-private es fs o =
    let (s, c) = ready-Alike es fs new_report new_report o (refl, refl) in
    (ap (λ s. elim s as (λ _. ℕ) [ up ↦ 200 | down ↦ 503 ]) s, s, c)
