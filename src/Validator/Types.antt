-- ===== src/Validator/Types.antt =====
-- The members of `iec::Validator` (include/iec_core/iec/validator.h) stay within their types.
use bpf_program.Base.{ℕ, ◌<◌, ◌^◌, arith, Bool-cases, inl, inr, List, [], ◌∷◌, All}
use bpf_program.Asdu.{Asdu, IsAsdu}
use bpf_program.Validator.{
  Validator, State, initial, correct, incorrect, Strategy, throw_exception, statistics, Result,
  returned, thrown, follows, capture, miss, validate_in, validate, validate_all, update, next_asdu,
}

-- The values that the members' C++ types allow.
pub record IsValidator (v : Validator) : Type 0 where
  pub captured_smp_sync_range : v.captured_smp_sync < 2 ^ 16
  pub missed_count_range : v.missed_count < 2 ^ 32
  pub captured_count_range : v.captured_count < 2 ^ 64

-- The members, however the method ends.
abbrev pub AfterIsValidator : Result → Type 0
AfterIsValidator (returned v) = IsValidator v
AfterIsValidator (thrown v) = IsValidator v

capture-IsValidator :
    (s : Strategy) (v : Validator) (b : ℕ)
    → b < 2 ^ 16
    → IsValidator v
    → AfterIsValidator (capture s v b)
capture-IsValidator throw_exception v b h i = ground arith
capture-IsValidator statistics v b h i = ground arith

miss-IsValidator :
    (s : Strategy) (v : Validator) (b : ℕ)
    → b < 2 ^ 16
    → IsValidator v
    → AfterIsValidator (miss s v b)
miss-IsValidator throw_exception v b h i = ground arith
miss-IsValidator statistics v b h i = capture-IsValidator v.strategy _ b h (ground arith)

validate_in-IsValidator :
    (s : State) (v : Validator) (b : ℕ)
    → b < 2 ^ 16
    → IsValidator v
    → AfterIsValidator (validate_in s v b)
validate_in-IsValidator initial v b h i = capture-IsValidator v.strategy _ b h (ground arith)
validate_in-IsValidator correct v b h i = elim (Bool-cases (follows v.captured_smp_sync b)) [
  | inl on ↦ rw on (capture-IsValidator v.strategy _ b h (ground arith))
  | inr gap ↦ rw gap (miss-IsValidator v.strategy v b h i)
]
validate_in-IsValidator incorrect v b h i = elim (Bool-cases (follows v.captured_smp_sync b)) [
  | inl on ↦ rw on (capture-IsValidator v.strategy _ b h (ground arith))
  | inr gap ↦ rw gap (miss-IsValidator v.strategy v b h i)
]

next_asdu-IsValidator :
    (r : Result) (rest : Validator → Result)
    → AfterIsValidator r
    → ((w : Validator) → IsValidator w → AfterIsValidator (rest w))
    → AfterIsValidator (next_asdu rest r)
next_asdu-IsValidator (returned v) rest i h = h v i
next_asdu-IsValidator (thrown v) rest i h = i

validate_all-IsValidator :
    (xs : List Asdu) (v : Validator)
    → All IsAsdu xs
    → IsValidator v
    → AfterIsValidator (validate_all v xs)
unfolding validate_all validate
validate_all-IsValidator [] v h i = i
validate_all-IsValidator (x ∷ xs) v (h, hs) i =
    next_asdu-IsValidator (validate_in v.state v x.smp_cnt) _
      (validate_in-IsValidator v.state v x.smp_cnt h.smp_cnt_range i)
      (λ w j. validate_all-IsValidator xs w hs j)

-- On members and ASDUs within their C++ types, `update` leaves members within their types, whether
-- it returns or throws, in every state and with either strategy.
pub update-IsValidator :
    (xs : List Asdu) (v : Validator)
    → All IsAsdu xs
    → IsValidator v
    → AfterIsValidator (update v xs)
unfolding update
update-IsValidator [] v h i = i
update-IsValidator (x ∷ xs) v h i = validate_all-IsValidator (x ∷ xs) v h i
