-- ===== src/Parser/State.antt =====
-- The state of `iec::IecParser` (include/iec_core/iec/iec_parser.h) together with the buffer that
-- it reads, and the ways in which one of its functions ends.
use bpf_program.Base.{
  ℕ, ◌+◌, ◌-◌, ◌%◌, ◌^◌, Bool, true, false, Option, none, some, List, [], ◌∷◌, ◌++◌,
}
use bpf_program.Asdu.{Asdu}
use bpf_program.Buffer.{StaticBuffer, append_offset}

-- `frame_length` is `internalFrameLength`.
pub record ParserState : Type 0 where
  pub buffer : StaticBuffer
  pub sequence : List Asdu
  pub frame_length : ℕ

-- The constructor, with the buffer that is given to `parse`.
abbrev pub new_parser : StaticBuffer → ParserState
new_parser b = record { buffer = b; sequence = []; frame_length = 0 }

-- `done` is a return with a value (`true` for a `bool` function), `rejected` the return of
-- `false`, which every caller but `parse` passes on, and `fault` is undefined behaviour.
pub data Outcome (A : Type 0) : Type 0 where
  done : A → ParserState → Outcome A
  rejected : ParserState → Outcome A
  fault : Outcome A

abbrev pub M : Type 0 → Type 0
M A = ParserState → Outcome A

abbrev pub continue : {A B : Type 0} → (A → M B) → Outcome A → Outcome B
continue f (done a s) = f a s
continue f (rejected s) = rejected s
continue f fault = fault

infixl 5 ◌>>=◌ ◌>>◌
abbrev pub ◌>>=◌ : {A B : Type 0} (run : M A) (next : A → M B) → M B
◌>>=◌ run next s = continue next (run s)

abbrev pub ◌>>◌ : {B : Type 0} (run : M (Unit {0})) (next : M B) → M B
run >> next = run >>= λ _. next

abbrev pub return : {A : Type 0} → A → M A
return a s = done a s

-- `if (!test) return false;`
abbrev pub require : Bool → M (Unit {0})
require true s = done tt s
require false s = rejected s

-- Unsigned subtraction wraps at the width of the variable.
abbrev pub sub_u8 : ℕ → ℕ → ℕ
sub_u8 a k = (a + 2 ^ 8 - k % 2 ^ 8) % 2 ^ 8

abbrev pub sub_u16 : ℕ → ℕ → ℕ
sub_u16 a k = (a + 2 ^ 16 - k % 2 ^ 16) % 2 ^ 16

-- `internalFrameLength -= n`
abbrev pub shrink : ℕ → M (Unit {0})
shrink n s = done tt (record s { frame_length = sub_u16 s.frame_length n })

abbrev pub set_frame_length : ℕ → M (Unit {0})
set_frame_length n s = done tt (record s { frame_length = n })

-- `buffer.appendOffset(n)`
abbrev pub skip : ℕ → M (Unit {0})
skip n s = done tt (record s { buffer = append_offset n s.buffer })

-- `buffer.appendOffset(n)` and `internalFrameLength -= n`
abbrev pub pass : ℕ → M (Unit {0})
pass n = skip n >> shrink n

abbrev pub push_back : Asdu → M (Unit {0})
push_back a s = done tt (record s { sequence = s.sequence ++ (a ∷ []) })

abbrev returned : ParserState → Option (ℕ × StaticBuffer) → Outcome ℕ
returned s none = fault
returned s (some (x, b)) = done x (record s { buffer = b })

-- A read of the buffer inside the parser.
abbrev pub reading : (StaticBuffer → Option (ℕ × StaticBuffer)) → M ℕ
reading r s = returned s (r s.buffer)
