-- ===== src/Buffer/Word.antt =====
-- An independent description of the reads of include/iec_core/utils/buffer.h.
use bpf_program.Base.{
  ℕ, ◌+◌, ◌^◌, ◌<◌, arith, List, [], ◌∷◌, ltb, if◌then◌else◌, length, take, drop, All, All-drop,
}
use bpf_program.Bytes.{of_be}

abbrev pub IsByte : ℕ → Type 0
IsByte x = x < 256

abbrev pub IsBytes : List ℕ → Type 0
IsBytes = All IsByte

-- The big-endian integer in the `n` bytes from `offset` on, and 0 where these do not end before
-- the last byte of the array.
abbrev pub word_at : ℕ → List ℕ → ℕ → ℕ
word_at n xs offset = if ltb (offset + n) (length xs) then of_be (take n (drop offset xs)) else 0

-- The words of bytes fit their types.
of_be1-lt : (xs : List ℕ) → IsBytes xs → of_be (take 1 xs) < 2 ^ 8
of_be1-lt [] h = omega arith
of_be1-lt (a ∷ xs) h = omega arith

of_be2-lt : (xs : List ℕ) → IsBytes xs → of_be (take 2 xs) < 2 ^ 16
of_be2-lt [] h = omega arith
of_be2-lt (a ∷ []) h = omega arith
of_be2-lt (a ∷ b ∷ xs) h = omega arith

of_be4-lt : (xs : List ℕ) → IsBytes xs → of_be (take 4 xs) < 2 ^ 32
of_be4-lt [] h = omega arith
of_be4-lt (a ∷ []) h = omega arith
of_be4-lt (a ∷ b ∷ []) h = omega arith
of_be4-lt (a ∷ b ∷ c ∷ []) h = omega arith
of_be4-lt (a ∷ b ∷ c ∷ d ∷ xs) h = omega arith

pub word_at1-lt : (xs : List ℕ) (p : ℕ) → IsBytes xs → word_at 1 xs p < 2 ^ 8
word_at1-lt xs p h = ground (arith, of_be1-lt (drop p xs), All-drop IsByte p xs h)

pub word_at2-lt : (xs : List ℕ) (p : ℕ) → IsBytes xs → word_at 2 xs p < 2 ^ 16
word_at2-lt xs p h = ground (arith, of_be2-lt (drop p xs), All-drop IsByte p xs h)

pub word_at4-lt : (xs : List ℕ) (p : ℕ) → IsBytes xs → word_at 4 xs p < 2 ^ 32
word_at4-lt xs p h = ground (arith, of_be4-lt (drop p xs), All-drop IsByte p xs h)
