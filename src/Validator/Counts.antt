-- ===== src/Validator/Counts.antt =====
-- What `Validator` of src/iec_core/iec/validator.cpp counts under the strategy that keeps
-- statistics.
use bpf_program.Base.{
  ℕ, ◌+◌, ◌-◌, ◌%◌, ◌^◌, ◌≤◌, ◌<◌, ◌≡◌, refl, arith, Bool, true, false, inl, inr, Bool-cases, List,
  [], ◌∷◌, length, if◌then◌else◌,
}
use bpf_program.Asdu.{Asdu}
use bpf_program.Validator.{
  Validator, State, initial, correct, incorrect, statistics, returned, follows, validate_in,
  validate, validate_all, update,
}
use bpf_program.Validator.Chain.{Begun}

abbrev pub last_count : ℕ → List Asdu → ℕ
last_count a [] = a
last_count a (x ∷ xs) = last_count x.smp_cnt xs

-- The counts grow from `a` on, with or without gaps.
abbrev pub Rises : ℕ → List Asdu → Type 0
Rises a [] = Unit
Rises a (x ∷ xs) = (a < x.smp_cnt) × Rises x.smp_cnt xs

le-last_count : (a : ℕ) (xs : List Asdu) → Rises a xs → a ≤ last_count a xs
le-last_count a [] h = omega arith
le-last_count a (x ∷ xs) h = omega (arith, le-last_count x.smp_cnt xs h.1)

-- The state and the missed count behind one more sample.
abbrev state_after : State → ℕ → ℕ → State
state_after initial last b = correct
state_after _ last b = if follows last b then correct else incorrect

abbrev missed_after : State → ℕ → ℕ → ℕ → ℕ
missed_after initial last missed b = missed
missed_after _ last missed b =
    if follows last b then missed else (missed + (2 ^ 32 + b - (last + 1))) % 2 ^ 32

abbrev seen : Validator → ℕ → Validator
seen v b = record v {
  captured_smp_sync = b;
  state = state_after v.state v.captured_smp_sync b;
  missed_count = missed_after v.state v.captured_smp_sync v.missed_count b;
  captured_count = (v.captured_count + 1) % 2 ^ 64;
}

validate_in-seen :
    (s : State) (v : Validator) (b : ℕ)
    → v.strategy ≡ statistics
    → validate_in s v b
      ≡ returned (record (seen v b) {
        state = state_after s v.captured_smp_sync b;
        missed_count = missed_after s v.captured_smp_sync v.missed_count b;
      })
validate_in-seen initial v b e = rw e
validate_in-seen correct v b e = elim (Bool-cases (follows v.captured_smp_sync b)) [
  | inl on ↦ rw (on, e)
  | inr gap ↦ rw (gap, e)
]
validate_in-seen incorrect v b e = elim (Bool-cases (follows v.captured_smp_sync b)) [
  | inl on ↦ rw (on, e)
  | inr gap ↦ rw (gap, e)
]

-- Under this strategy a sample is never refused.
validate-seen :
    (v : Validator) (b : ℕ) → v.strategy ≡ statistics → validate v b ≡ returned (seen v b)
unfolding validate
validate-seen v b e = validate_in-seen v.state v b e

seen_all : Validator → List Asdu → Validator
seen_all v [] = v
seen_all v (x ∷ xs) = seen_all (seen v x.smp_cnt) xs

validate_all-seen :
    (xs : List Asdu) (v : Validator)
    → v.strategy ≡ statistics
    → validate_all v xs ≡ returned (seen_all v xs)
unfolding validate_all seen_all
validate_all-seen [] v e = refl
validate_all-seen (x ∷ xs) v e =
    rw (validate-seen v x.smp_cnt e) (validate_all-seen xs (seen v x.smp_cnt) e)

Begun-branch : (t : Bool) → Begun (if t then correct else incorrect)
Begun-branch true = tt
Begun-branch false = tt

Begun-after : (s : State) (a b : ℕ) → Begun (state_after s a b)
Begun-after initial a b = tt
Begun-after correct a b = Begun-branch (follows a b)
Begun-after incorrect a b = Begun-branch (follows a b)

-- The last count, and how many.
seen_all-counts :
    (xs : List Asdu) (v : Validator)
    → v.captured_count + length xs < 2 ^ 64
    → ((seen_all v xs).captured_smp_sync ≡ last_count v.captured_smp_sync xs)
      × ((seen_all v xs).captured_count ≡ v.captured_count + length xs)
unfolding seen_all
seen_all-counts [] v h = (refl, omega arith)
seen_all-counts (x ∷ xs) v h =
    let ih = seen_all-counts xs (seen v x.smp_cnt) (omega arith) in (ih.0, omega (arith, ih.1))

missed_up :
    (s : State) (last missed b : ℕ)
    → Begun s
    → last < b
    → missed + (b - last) < 2 ^ 32
    → missed_after s last missed b + 1 ≡ missed + (b - last)
missed_up initial last missed b begun h small = absurd begun
missed_up correct last missed b begun h small = ground arith
missed_up incorrect last missed b begun h small = ground arith

seen_all-Rises :
    (xs : List Asdu) (v : Validator)
    → Begun v.state
    → Rises v.captured_smp_sync xs
    → v.missed_count + (last_count v.captured_smp_sync xs - v.captured_smp_sync) < 2 ^ 32
    → (seen_all v xs).missed_count + length xs + v.captured_smp_sync
      ≡ v.missed_count + last_count v.captured_smp_sync xs
unfolding seen_all
seen_all-Rises [] v begun h small = omega arith
seen_all-Rises (x ∷ xs) v begun h small =
    let b = x.smp_cnt in
    let up = le-last_count b xs h.1 in
    let step = missed_up v.state v.captured_smp_sync v.missed_count b begun h.0 (omega arith) in
    let ih =
      seen_all-Rises xs (seen v b) (Begun-after v.state v.captured_smp_sync b) h.1 (omega arith) in
    omega (arith, ih, step)

-- Under the strategy that keeps statistics, `update` returns on every sequence of at least one
-- ASDU, whatever the sample counts are: it captures them all, and keeps the last.
update-captured_count :
    (v : Validator) (x : Asdu) (xs : List Asdu)
    → v.strategy ≡ statistics
    → v.captured_count + length (x ∷ xs) < 2 ^ 64
    → (w : Validator) × (update v (x ∷ xs) ≡ returned w)
      × (w.captured_smp_sync ≡ last_count v.captured_smp_sync (x ∷ xs))
      × (w.captured_count ≡ v.captured_count + length (x ∷ xs))
unfolding update
update-captured_count v x xs e small =
    let counts = seen_all-counts (x ∷ xs) v small in
    (seen_all v (x ∷ xs), validate_all-seen (x ∷ xs) v e, counts.0, counts.1)

-- While the sample counts rise, from a sample already seen, no sample is lost from the books: what
-- `update` adds to the missed and the captured count together is how far the sample count has come,
-- where neither counter overflows.
pub update-missed_count :
    (v : Validator) (x : Asdu) (xs : List Asdu)
    → v.strategy ≡ statistics
    → Begun v.state
    → Rises v.captured_smp_sync (x ∷ xs)
    → v.captured_count + length (x ∷ xs) < 2 ^ 64
    → v.missed_count + (last_count v.captured_smp_sync (x ∷ xs) - v.captured_smp_sync) < 2 ^ 32
    → (w : Validator) × (update v (x ∷ xs) ≡ returned w)
      × (w.missed_count + w.captured_count + v.captured_smp_sync
          ≡ v.missed_count + v.captured_count + w.captured_smp_sync)
unfolding update
update-missed_count v x xs e begun h small small' =
    let counts = seen_all-counts (x ∷ xs) v small in
    let missed = seen_all-Rises (x ∷ xs) v begun h small' in
    (seen_all v (x ∷ xs), validate_all-seen (x ∷ xs) v e, omega (arith, counts.0, counts.1, missed))

missed_falls :
    (s : State) (last missed b : ℕ)
    → Begun s
    → follows last b ≡ false
    → b ≤ last
    → last < 2 ^ 16
    → missed ≤ last - b
    → 2 ^ 32 - 2 ^ 16 ≤ missed_after s last missed b
missed_falls initial last missed b begun gap le small low = absurd begun
missed_falls correct last missed b begun gap le small low = rw gap (omega arith)
missed_falls incorrect last missed b begun gap le small low = rw gap (omega arith)

-- Under Statistics, where a sample was seen before, its count is below 2^16, a count comes that does
-- not follow it and is not above it, and no more samples are missed so far than it is below: the
-- missed count does not grow by the number of lost samples, but falls below 0 and wraps, to at
-- least 2^32 - 2^16.
pub validate-wraps :
    (v : Validator) (b : ℕ)
    → v.strategy ≡ statistics
    → Begun v.state
    → follows v.captured_smp_sync b ≡ false
    → b ≤ v.captured_smp_sync
    → v.captured_smp_sync < 2 ^ 16
    → v.missed_count ≤ v.captured_smp_sync - b
    → (w : Validator) × (validate v b ≡ returned w) × (2 ^ 32 - 2 ^ 16 ≤ w.missed_count)
validate-wraps v b e begun gap le small low = (
  seen v b,
  validate-seen v b e,
  missed_falls v.state v.captured_smp_sync v.missed_count b begun gap le small low,
)
