-- ===== src/Bytes.antt =====
-- The integer types and byte swaps of include/iec_core/iec/byte_op.h and
-- src/iec_core/iec/byte_op.cpp. A value of a `w`-bit type is a number below 2 ^ w. The unions of
-- the source read an integer's bytes in memory order, which depends on the machine: the order is
-- an argument here, so that both machines are covered.
pub mod Swap
mod Tests
use bpf_program.Base.{ℕ, zero, suc, ◌+◌, ◌*◌, ◌/◌, ◌%◌, ◌^◌, List, [], ◌∷◌, ◌++◌, get_or}

pub data ByteOrder : Type 0 where
  little_endian big_endian : ByteOrder

-- The bytes of an integer of `n` bytes, least and most significant byte first.
abbrev pub to_le : ℕ → ℕ → List ℕ
to_le zero x = []
to_le (suc n) x = (x % 256) ∷ to_le n (x / 256)

abbrev pub to_be : ℕ → ℕ → List ℕ
to_be zero x = []
to_be (suc n) x = to_be n (x / 256) ++ ((x % 256) ∷ [])

abbrev pub of_le : List ℕ → ℕ
of_le [] = 0
of_le (b ∷ bs) = b + 256 * of_le bs

abbrev pub of_be_onto : ℕ → List ℕ → ℕ
of_be_onto acc [] = acc
of_be_onto acc (b ∷ bs) = of_be_onto (256 * acc + b) bs

abbrev pub of_be : List ℕ → ℕ
of_be = of_be_onto 0

-- An integer object seen as its bytes in memory, and bytes seen as an integer object.
abbrev pub store : ByteOrder → ℕ → ℕ → List ℕ
store little_endian = to_le
store big_endian = to_be

abbrev pub load : ByteOrder → List ℕ → ℕ
load little_endian = of_le
load big_endian = of_be

-- The three overloads of `bytes::byteswap`. The members a, b, ... of the byte set are the bytes
-- 0, 1, ... of the integer in memory.
unfoldable pub byteswap16 : ByteOrder → ℕ → ℕ
byteswap16 order x =
    let y : List ℕ = store order 2 x in load order (get_or y 1 0 ∷ get_or y 0 0 ∷ [])

unfoldable pub byteswap32 : ByteOrder → ℕ → ℕ
byteswap32 order x =
    let y : List ℕ = store order 4 x in
    load order (get_or y 3 0 ∷ get_or y 2 0 ∷ get_or y 1 0 ∷ get_or y 0 0 ∷ [])

unfoldable pub byteswap64 : ByteOrder → ℕ → ℕ
byteswap64 order x =
    let y : List ℕ = store order 8 x in
    load order (
      get_or y 7 0
      ∷ get_or y 6 0
      ∷ get_or y 5 0
      ∷ get_or y 4 0
      ∷ get_or y 3 0
      ∷ get_or y 2 0
      ∷ get_or y 1 0
      ∷ get_or y 0 0
      ∷ [])
