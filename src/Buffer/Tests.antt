-- ===== src/Buffer/Tests.antt =====
-- Runs of the reads, and theorems at an input, of include/iec_core/utils/buffer.h.
use bpf_program.Base.{◌≡◌, refl, arith, ◌∷◌, [], some}
use bpf_program.Bytes.{little_endian, big_endian, byteswap16}
use bpf_program.Buffer.{StaticBuffer, read_u8, read_u16, read_u32, read_u64, read, bytes_from}
use bpf_program.Buffer.Reads.{reads-word_at}

abbrev four : StaticBuffer
four = record { bytes = 1 ∷ 2 ∷ 3 ∷ 4 ∷ []; offset = 1; written = 4 }

read_four :
    (read_u16 little_endian four ≡ some (0x203, record four { offset = 3 }))
    × (read_u16 big_endian four ≡ some (0x203, record four { offset = 3 }))
    × (read_u32 big_endian four ≡ some (0, record four { offset = 5 }))
    × (read_u8 big_endian four ≡ some (2, record four { offset = 2 }))
unfolding read_u16 read_u32 read_u8 read bytes_from byteswap16
read_four = (refl, refl, refl, refl)

reads-word_at_example :
    (read_u8 big_endian four ≡ some (2, record four { offset = 2 }))
    × (read_u16 big_endian four ≡ some (0x203, record four { offset = 3 }))
    × (read_u32 big_endian four ≡ some (0, record four { offset = 5 }))
    × (read_u64 big_endian four ≡ some (0, record four { offset = 9 }))
reads-word_at_example = reads-word_at big_endian four (omega arith) (omega arith)
