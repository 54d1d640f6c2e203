-- ===== src/Bytes/Tests.antt =====
-- Runs of the byte swaps of src/iec_core/iec/byte_op.cpp.
use bpf_program.Base.{◌≡◌, refl}
use bpf_program.Bytes.{little_endian, big_endian, byteswap16, byteswap32, byteswap64}

swaps :
    (byteswap16 little_endian 0x1234 ≡ 0x3412)
    × (byteswap32 big_endian 0x12345678 ≡ 0x78563412)
    × (byteswap64 little_endian 0x0102030405060708 ≡ 0x0807060504030201)
unfolding byteswap16 byteswap32 byteswap64
swaps = (refl, refl, refl)
