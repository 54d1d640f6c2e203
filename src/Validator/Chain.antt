-- ===== src/Validator/Chain.antt =====
-- With the strategy that throws, `Validator::update` of src/iec_core/iec/validator.cpp accepts the
-- sequences with no gap, and no others.
use bpf_program.Base.{
  ℕ, ◌+◌, ◌≡◌, ◌↔◌, ◌⊎◌, inl, inr, refl, sym, ap, ◌∙◌, arith, true, false, Bool-cases, List, [],
  ◌∷◌,
}
use bpf_program.Asdu.{Asdu}
use bpf_program.Validator.{
  Validator, State, initial, correct, incorrect, Strategy, throw_exception, statistics, Result,
  returned, thrown, follows, new, capture, validate_in, validate, validate_all, update, next_asdu,
  reset, max80p, max256p,
}

-- The sample count `b` comes straight after `a`.
abbrev pub Next : ℕ → ℕ → Type 0
Next a b = (b ≡ a + 1) ⊎ ((b ≡ 0) × ((a ≡ max80p) ⊎ (a ≡ max256p)))

-- The samples go on from the count `a` with no gap.
abbrev pub GoesOn : ℕ → List Asdu → Type 0
GoesOn a [] = Unit
GoesOn a (x ∷ xs) = Next a x.smp_cnt × GoesOn x.smp_cnt xs

follows-Next : (a b : ℕ) → (follows a b ≡ true) ↔ Next a b
follows-Next a b = ground arith

abbrev pub Returns : Result → Type 0
Returns (returned v) = Unit
Returns (thrown v) = ⊥

abbrev pub Begun : State → Type 0
Begun initial = ⊥
Begun _ = Unit

-- Samples have been seen, and a gap throws.
pub record IsStrict (v : Validator) : Type 0 where
  pub strategy_eq : v.strategy ≡ throw_exception
  pub begun : Begun v.state

abbrev accepted : Validator → ℕ → Validator
accepted v b = record v { state = correct; captured_smp_sync = b }

validate_in-follows :
    (s : State) (v : Validator) (b : ℕ)
    → Begun s
    → v.strategy ≡ throw_exception
    → follows v.captured_smp_sync b ≡ true
    → validate_in s v b ≡ returned (accepted v b)
validate_in-follows initial v b begun e h = absurd begun
validate_in-follows correct v b begun e h = rw (h, e)
validate_in-follows incorrect v b begun e h = rw (h, e)

validate_in-gap :
    (s : State) (v : Validator) (b : ℕ)
    → Begun s
    → v.strategy ≡ throw_exception
    → follows v.captured_smp_sync b ≡ false
    → validate_in s v b ≡ thrown (record v { state = incorrect })
validate_in-gap initial v b begun e h = absurd begun
validate_in-gap correct v b begun e h = rw (h, e)
validate_in-gap incorrect v b begun e h = rw (h, e)

-- The loop of `update` returns exactly when the samples go on with no gap.
validate_all-GoesOn :
    (xs : List Asdu) (v : Validator)
    → IsStrict v
    → Returns (validate_all v xs) ↔ GoesOn v.captured_smp_sync xs
unfolding validate_all validate
validate_all-GoesOn [] v t = (λ _. tt, λ _. tt)
validate_all-GoesOn (x ∷ xs) v t =
    let b = x.smp_cnt in
    let next : IsStrict (accepted v b) = record { strategy_eq = t.strategy_eq; begun = tt } in
    let ih = validate_all-GoesOn xs (accepted v b) next in
    elim (Bool-cases (follows v.captured_smp_sync b)) [
      | inl on ↦
          rw (validate_in-follows v.state v b t.begun t.strategy_eq on)
            (λ r. ((follows-Next v.captured_smp_sync b).0 on, ih.0 r), λ g. ih.1 g.1)
      | inr gap ↦
          rw (validate_in-gap v.state v b t.begun t.strategy_eq gap)
            (λ r. absurd r, λ g. cc ((follows-Next v.captured_smp_sync b).1 g.0))
    ]

-- What `update` may be given: some samples, which go on with no gap from the last one seen, and
-- from the first one if none was seen.
abbrev pub Fits : State → ℕ → List Asdu → Type 0
Fits s last [] = ⊥
Fits initial last (x ∷ xs) = GoesOn x.smp_cnt xs
Fits correct last (x ∷ xs) = GoesOn last (x ∷ xs)
Fits incorrect last (x ∷ xs) = GoesOn last (x ∷ xs)

update_in-Fits :
    (s : State) (xs : List Asdu) (v : Validator)
    → v.state ≡ s
    → v.strategy ≡ throw_exception
    → Returns (update v xs) ↔ Fits s v.captured_smp_sync xs
unfolding update validate_all validate
update_in-Fits initial (x ∷ xs) v e t =
    rw (e, t)
      (validate_all-GoesOn xs (record (accepted v x.smp_cnt) { strategy = throw_exception })
        (record { strategy_eq = refl; begun = tt }))
update_in-Fits correct (x ∷ xs) v e t =
    validate_all-GoesOn (x ∷ xs) v (record { strategy_eq = t; begun = rw e tt })
update_in-Fits incorrect (x ∷ xs) v e t =
    validate_all-GoesOn (x ∷ xs) v (record { strategy_eq = t; begun = rw e tt })
update_in-Fits _ [] v e t = (λ r. r, λ f. absurd f)

-- With the strategy that throws, `update` returns exactly when it is given at least one ASDU and
-- the sample counts go on with no gap: each is one more than the one before, or 0 after 3999 or
-- after 12799. The first count of all may be any.
pub update-Fits :
    (v : Validator) (xs : List Asdu)
    → v.strategy ≡ throw_exception
    → Returns (update v xs) ↔ Fits v.state v.captured_smp_sync xs
update-Fits v xs t = update_in-Fits v.state xs v refl t

fresh : Strategy → ℕ → Result
fresh s b = capture s (record new { state = correct; strategy = s }) b

capture-reset :
    (s : Strategy) (v : Validator) (b : ℕ)
    → v.strategy ≡ s
    → capture s (record (reset v) { state = correct }) b ≡ fresh s b
unfolding fresh
capture-reset throw_exception v b e i =
    returned (record new { captured_smp_sync = b; state = correct; strategy = e i })
capture-reset statistics v b e i =
    returned
      (record new { captured_smp_sync = b; state = correct; strategy = e i; captured_count = 1 })

-- A `reset` makes the validator forget all that it has seen: only the strategy counts for what
-- `update` does after it.
pub update-reset :
    (v w : Validator) (x : Asdu) (xs : List Asdu)
    → v.strategy ≡ w.strategy
    → update (reset v) (x ∷ xs) ≡ update (reset w) (x ∷ xs)
unfolding update validate_all validate
update-reset v w x xs e =
    let b = x.smp_cnt in
    let same =
      capture-reset v.strategy v b refl
      ∙ ap (λ s. fresh s b) e
      ∙ sym (capture-reset w.strategy w b refl) in
    ap (next_asdu (λ u. validate_all u xs)) same
