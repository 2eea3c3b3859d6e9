-- ===== src/Health/Checker/Order.antt =====
-- The report, against the order in which the checks end.
use mathlib.Core.List.{Permᴰ}
use mathlib.Core.List.Permᴰ
use mathlib.Core.Path.{subst}
use emovis_micro_service.Base.{
  ℕ, Text, text_eq, text_eq_iff, false, List, [], ◌∷◌, none, some, All, ◌≡◌, ◌↔◌, refl, sym, ◌∙◌,
  ap, arith, Option-cases, Bool-cases, inl, inr, if◌then◌else◌,
}
use emovis_micro_service.Base.Maps.{get, put, get-put}
use emovis_micro_service.Health.{
  Report, Ended, result_of, add_result, ready, new_report, handle_ready,
}
use emovis_micro_service.Health.Ready.{handle_ready_iff}
use emovis_micro_service.Health.Checker.{
  Check, Checker, new_checker, register, register_all, ran, ran_all,
}

-- Two reports that say the same: a map has no order.
abbrev pub Same : Report → Report → Type 0
Same r r' =
    (r.status ≡ r'.status)
    × ((name : Text) → get text_eq name r.checks ≡ get text_eq name r'.checks)

add_result-Same : (e : Ended) (r r' : Report) → Same r r' → Same (add_result e r) (add_result e r')
unfolding add_result
add_result-Same e r r' (s, c) = (
  elim (Option-cases e.failure) [ inl p ↦ ground arith | inr (cause, f) ↦ ground arith ],
  λ name.
      get-put text_eq text_eq_iff e.name name (result_of e) r.checks
      ∙ ap (λ o. if text_eq e.name name then some (result_of e) else o) (c name)
      ∙ sym (get-put text_eq text_eq_iff e.name name (result_of e) r'.checks),
)

ready-Same : (es : List Ended) (r r' : Report) → Same r r' → Same (ready es r) (ready es r')
unfolding ready
ready-Same [] r r' h = h
ready-Same (e ∷ es) r r' h =
    ready-Same es (add_result e r) (add_result e r') (add_result-Same e r r' h)

-- Names that differ.
abbrev Apart : Ended → Ended → Type 0
Apart e f = text_eq e.name f.name ≡ false

abbrev pub AllApart : List Ended → Type 0
AllApart [] = Unit
AllApart (e ∷ es) = All (Apart e) es × AllApart es

Apart-comm : (e f : Ended) → Apart e f → Apart f e
Apart-comm e f h = ground (arith, text_eq_iff e.name f.name, text_eq_iff f.name e.name)

add_result-swap :
    (e f : Ended) (r r' : Report)
    → Apart e f
    → Same r r'
    → Same (add_result e (add_result f r)) (add_result f (add_result e r'))
unfolding add_result
add_result-swap e f r r' apart (s, c) = (
  elim (Option-cases e.failure) [
    | inl p ↦ elim (Option-cases f.failure) [ inl q ↦ ground arith | inr (b, q) ↦ ground arith ]
    | inr (a, p) ↦ elim (Option-cases f.failure) [
      | inl q ↦ ground arith
      | inr (b, q) ↦ ground arith
    ]
  ],
  λ name. ground (
    arith,
    c name,
    text_eq_iff e.name name,
    text_eq_iff f.name name,
    text_eq_iff e.name f.name,
    get-put text_eq text_eq_iff e.name name (result_of e) (add_result f r).checks,
    get-put text_eq text_eq_iff f.name name (result_of f) r.checks,
    get-put text_eq text_eq_iff f.name name (result_of f) (add_result e r').checks,
    get-put text_eq text_eq_iff e.name name (result_of e) r'.checks,
  ),
)

All-perm : (P : Ended → Type 0) (es fs : List Ended) → Permᴰ es fs → All P es → All P fs
All-perm P _ _ Permᴰ.nil h = h
All-perm P _ _ (Permᴰ.cons e d) (p, h) = (subst P e p, All-perm P _ _ d h)
All-perm P _ _ (Permᴰ.swap e f) (p, (q, h)) = (subst P f q, (subst P e p, h))
All-perm P _ _ (Permᴰ.trans d d') h = All-perm P _ _ d' (All-perm P _ _ d h)

AllApart-perm : (es fs : List Ended) → Permᴰ es fs → AllApart es → AllApart fs
AllApart-perm _ _ Permᴰ.nil h = h
AllApart-perm _ _ (Permᴰ.cons {a = a} {b = b} {l₂ = l₂} e d) (p, h) =
    (subst (λ x. All (Apart x) l₂) e (All-perm (Apart a) _ _ d p), AllApart-perm _ _ d h)
AllApart-perm _ _ (Permᴰ.swap {a = a} {b = b} {a' = a'} {b' = b'} {l = l} e f) ((ab, al), (bl, h)) =
    subst (λ x. AllApart (x ∷ b' ∷ l)) f
      (subst (λ x. AllApart (b ∷ x ∷ l)) e ((Apart-comm a b ab, bl), (al, h)))
AllApart-perm _ _ (Permᴰ.trans d d') h = AllApart-perm _ _ d' (AllApart-perm _ _ d h)

ready-perm :
    (es fs : List Ended) (r r' : Report)
    → Permᴰ es fs
    → AllApart es
    → Same r r'
    → Same (ready es r) (ready fs r')
unfolding ready
ready-perm _ _ r r' Permᴰ.nil h s = s
ready-perm _ _ r r' (Permᴰ.cons {a = a} {b = b} e d) (p, h) s =
    ready-perm _ _ (add_result a r) (add_result b r') d h
      (subst (λ x. Same (add_result a r) (add_result x r')) e (add_result-Same a r r' s))
ready-perm _ _ r r' (Permᴰ.swap {a = a} {b = b} {a' = a'} {b' = b'} {l = l} e f) ((ab, al), h) s =
    ready-Same l (add_result b (add_result a r)) (add_result b' (add_result a' r')) (
      subst (λ x. Same (add_result b (add_result a r)) (add_result b' (add_result x r'))) f
        (subst (λ x. Same (add_result b (add_result a r)) (add_result x (add_result b r'))) e
          (add_result-swap b a r r' (Apart-comm a b ab) s)))
ready-perm _ _ r r' (Permᴰ.trans {l₂ = l₂} d d') h s =
    let (p, q) = ready-perm _ _ r r d h ((refl, λ name. refl)) in
    let (p', q') = ready-perm _ _ r r' d' (AllApart-perm _ _ d h) s in
    (p ∙ p', λ name. q name ∙ q' name)

-- A name that is not among those of the checks.
abbrev IsOther : Text → Ended → Type 0
IsOther name e = text_eq name e.name ≡ false

put-IsOther :
    (name n : Text) (check : Check) (t : ℕ) (m : List (Text × Check))
    → text_eq name n ≡ false
    → All (IsOther name) (ran_all t m)
    → All (IsOther name) (ran_all t (put text_eq n check m))
unfolding put ran_all
put-IsOther name n check t [] h k = (h, tt)
put-IsOther name n check t ((i, c) ∷ m) h (k, ks) = elim (Bool-cases (text_eq i n)) [
  | inl same ↦ rw same (h, ks)
  | inr other ↦ rw other (k, put-IsOther name n check t m h ks)
]

put-AllApart :
    (n : Text) (check : Check) (t : ℕ) (m : List (Text × Check))
    → AllApart (ran_all t m)
    → AllApart (ran_all t (put text_eq n check m))
unfolding put ran_all
put-AllApart n check t [] h = (tt, tt)
put-AllApart n check t ((i, c) ∷ m) (k, ks) = elim (Bool-cases (text_eq i n)) [
  | inl same ↦ rw same (subst (λ x. All (IsOther x) (ran_all t m)) ((text_eq_iff i n).0 same) k, ks)
  | inr other ↦ rw other (put-IsOther i n check t m other k, put-AllApart n check t m ks)
]

register_all-AllApart :
    (checks : List (Text × Check)) (c : Checker)
    → AllApart (ran c)
    → AllApart (ran (register_all checks c))
unfolding register_all register ran
register_all-AllApart [] c h = h
register_all-AllApart ((name, check) ∷ checks) c h =
    register_all-AllApart checks (register name check c)
      (put-AllApart name check c.timeout c.checks h)

-- Whatever checks are registered, one name after the other or again, and in whatever order they end when
-- a probe runs them all: the status of the report and its result under each name are the same, and the
-- probe is answered 200 exactly if every registered check passes.
pub ready-any :
    (timeout : ℕ) (checks : List (Text × Check)) (ended : List Ended)
    → Permᴰ (ran (register_all checks (new_checker timeout))) ended
    → Same
        (ready ended new_report)
        (ready (ran (register_all checks (new_checker timeout))) new_report)
      × (((handle_ready (ready ended new_report)).code ≡ 200)
          ↔ All (λ e. e.failure ≡ none) (ran (register_all checks (new_checker timeout))))
unfolding new_checker ran
ready-any timeout checks ended d =
    let c = register_all checks (new_checker timeout) in
    let apart = register_all-AllApart checks (new_checker timeout) tt in
    let (p, q) = ready-perm (ran c) ended new_report new_report d apart (refl, λ name. refl) in
    let (f, g) = (handle_ready_iff ended).0 in
    (
      (sym p, λ name. sym (q name)),
      (
        λ h. All-perm (λ e. e.failure ≡ none) ended (ran c) (Permᴰ.symm d) (f h),
        λ h. g (All-perm (λ e. e.failure ≡ none) (ran c) ended d h),
      ),
    )
