-- ===== src/Validator.antt =====
-- `iec::Validator` of include/iec_core/iec/validator.h and src/iec_core/iec/validator.cpp. The
-- lines that are printed are left out.
pub mod Chain
pub mod Counts
pub mod Types
mod Tests
use bpf_program.Base.{
  ℕ, ◌+◌, ◌-◌, ◌%◌, ◌^◌, Bool, true, false, ◌&&◌, ◌||◌, List, [], ◌∷◌, ◌==◌, if◌then◌else◌,
}
use bpf_program.Asdu.{Asdu}

pub data State : Type 0 where
  initial correct incorrect : State

pub data Strategy : Type 0 where
  throw_exception statistics : Strategy

pub record Validator : Type 0 where
  pub captured_smp_sync : ℕ
  pub state : State
  pub strategy : Strategy
  pub missed_count : ℕ
  pub captured_count : ℕ

-- How a method ends: with a return, or with an exception and the members as they are then.
pub data Result : Type 0 where
  returned thrown : Validator → Result

abbrev pub min : ℕ
min = 0

abbrev pub max80p : ℕ
max80p = 3999

abbrev pub max256p : ℕ
max256p = 12799

abbrev pub new : Validator
new = record {
  captured_smp_sync = 0;
  state = initial;
  strategy = throw_exception;
  missed_count = 0;
  captured_count = 0;
}

-- The end of `validate`.
abbrev pub capture : Strategy → Validator → ℕ → Result
capture statistics v smp_sync =
    returned
      (record v { captured_count = (v.captured_count + 1) % 2 ^ 64; captured_smp_sync = smp_sync })
capture throw_exception v smp_sync = returned (record v { captured_smp_sync = smp_sync })

-- The branch of a miss. `missed` is an `int`, which may be negative, added to a `u32`.
abbrev pub miss : Strategy → Validator → ℕ → Result
miss throw_exception v smp_sync = thrown (record v { state = incorrect })
miss statistics v smp_sync =
    capture v.strategy
      (record v {
        state = incorrect;
        missed_count = (v.missed_count + (2 ^ 32 + smp_sync - (v.captured_smp_sync + 1))) % 2 ^ 32;
      })
      smp_sync

-- `(smpSync - 1) == capturedSmpSync` is between `int`s, so that it fails at `smpSync` 0.
abbrev pub follows : ℕ → ℕ → Bool
follows captured smp_sync =
    (smp_sync == min && (captured == max80p || captured == max256p)) || smp_sync == captured + 1

abbrev pub validate_in : State → Validator → ℕ → Result
validate_in initial v smp_sync = capture v.strategy (record v { state = correct }) smp_sync
validate_in _ v smp_sync =
    if follows v.captured_smp_sync smp_sync
    then capture v.strategy (record v { state = correct }) smp_sync
    else miss v.strategy v smp_sync

unfoldable pub validate : Validator → ℕ → Result
validate v = validate_in v.state v

abbrev pub set_strategy : Strategy → Validator → Validator
set_strategy strategy v = record v { strategy = strategy }

-- The loop of `update`, which an exception leaves.
abbrev pub next_asdu : (Validator → Result) → Result → Result
next_asdu rest (returned v) = rest v
next_asdu rest (thrown v) = thrown v

unfoldable pub validate_all : Validator → List Asdu → Result
validate_all v [] = returned v
validate_all v (a ∷ rest) = next_asdu (λ w. validate_all w rest) (validate v a.smp_cnt)

unfoldable pub update : Validator → List Asdu → Result
update v [] = thrown v
update v (a ∷ rest) = validate_all v (a ∷ rest)

abbrev pub reset : Validator → Validator
reset v = record v { state = initial; missed_count = 0; captured_count = 0 }
