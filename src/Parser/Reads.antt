-- ===== src/Parser/Reads.antt =====
-- The reads of the parser of include/iec_core/iec/iec_parser.h, by the words that stand in the
-- buffer.
use bpf_program.Base.{ℕ, ◌+◌, ◌^◌, ◌<◌, ◌≡◌, refl, arith}
use bpf_program.Bytes.{ByteOrder}
use bpf_program.Buffer.{append_offset}
use bpf_program.Buffer.Word.{IsBytes, word_at, word_at1-lt, word_at2-lt, word_at4-lt}
use bpf_program.Buffer.Reads.{read_u8-word_at, read_u16-word_at, read_u32-word_at}
use bpf_program.Parser.{read_byte, read_word, read_dword}
use bpf_program.Parser.State.{ParserState, done, sub_u16}
use bpf_program.Parser.Moves.{Moved, Within}

abbrev pub advanced : ℕ → ParserState → ParserState
advanced n s = record s {
  buffer = append_offset n s.buffer;
  frame_length = sub_u16 s.frame_length n;
}

abbrev pub next_word : ℕ → ParserState → ℕ
next_word n s = word_at n s.buffer.bytes s.buffer.offset

pub advanced-Moved :
    (n : ℕ) (s : ParserState) → s.buffer.offset + n < 2 ^ 64 → n < 2 ^ 16 → Moved n s (advanced n s)
advanced-Moved n s small h = record {
  count = n;
  count_le = omega arith;
  offset_eq = omega arith;
  bytes_eq = refl;
  written_eq = refl;
  length_eq = omega arith;
  asdus = λ all. all;
}

module _ (order : ByteOrder) where
  pub read_byte-word :
      (s : ParserState)
      → s.buffer.offset + 1 < 2 ^ 64
      → read_byte order s ≡ done (next_word 1 s) (advanced 1 s)
  unfolding read_byte
  read_byte-word s small = rw (read_u8-word_at order s.buffer small)

  pub read_word-word :
      (s : ParserState)
      → IsBytes s.buffer.bytes
      → s.buffer.offset + 2 < 2 ^ 64
      → read_word order s ≡ done (next_word 2 s) (advanced 2 s)
  unfolding read_word
  read_word-word s bytes small = rw (read_u16-word_at order s.buffer bytes small)

  pub read_dword-word :
      (s : ParserState)
      → IsBytes s.buffer.bytes
      → s.buffer.offset + 4 < 2 ^ 64
      → read_dword order s ≡ done (next_word 4 s) (advanced 4 s)
  unfolding read_dword
  read_dword-word s bytes small = rw (read_u32-word_at order s.buffer bytes small)

  pub Within-read_byte : Within 1 (read_byte order) (λ x _. x < 2 ^ 8)
  Within-read_byte = record {
    run = λ s bytes small.
        rw (read_byte-word s small) (
          advanced-Moved 1 s small (omega arith),
          word_at1-lt s.buffer.bytes s.buffer.offset bytes,
        );
  }

  pub Within-read_word : Within 2 (read_word order) (λ x _. x < 2 ^ 16)
  Within-read_word = record {
    run = λ s bytes small.
        rw (read_word-word s bytes small) (
          advanced-Moved 2 s small (omega arith),
          word_at2-lt s.buffer.bytes s.buffer.offset bytes,
        );
  }

  pub Within-read_dword : Within 4 (read_dword order) (λ x _. x < 2 ^ 32)
  Within-read_dword = record {
    run = λ s bytes small.
        rw (read_dword-word s bytes small) (
          advanced-Moved 4 s small (omega arith),
          word_at4-lt s.buffer.bytes s.buffer.offset bytes,
        );
  }
