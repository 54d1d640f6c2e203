-- ===== src/Bytes/Swap.antt =====
-- What the byte swaps of src/iec_core/iec/byte_op.cpp compute.
use bpf_program.Base.{ℕ, ◌<◌, ◌^◌, ◌≡◌, arith}
use bpf_program.Bytes.{
  ByteOrder, little_endian, big_endian, to_le, of_be, byteswap16, byteswap32, byteswap64,
}

-- A swap of an integer's bytes is the integer whose most significant byte was the least
-- significant one, on either machine.
byteswap-of_be :
    (order : ByteOrder) (x : ℕ)
    → (byteswap16 order x ≡ of_be (to_le 2 x))
      × (byteswap32 order x ≡ of_be (to_le 4 x))
      × (byteswap64 order x ≡ of_be (to_le 8 x))
unfolding byteswap16 byteswap32 byteswap64
byteswap-of_be little_endian x = (omega arith, omega arith, omega arith)
byteswap-of_be big_endian x = (omega arith, omega arith, omega arith)

-- Each swap is its own inverse on the values of its type, on either machine.
pub byteswap-byteswap :
    (order : ByteOrder) (word dword qword : ℕ)
    → word < 2 ^ 16
    → dword < 2 ^ 32
    → qword < 2 ^ 64
    → (byteswap16 order (byteswap16 order word) ≡ word)
      × (byteswap32 order (byteswap32 order dword) ≡ dword)
      × (byteswap64 order (byteswap64 order qword) ≡ qword)
unfolding byteswap16 byteswap32 byteswap64
byteswap-byteswap little_endian a b c ha hb hc = (omega arith, omega arith, omega arith)
byteswap-byteswap big_endian a b c ha hb hc = (omega arith, omega arith, omega arith)
