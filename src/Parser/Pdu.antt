-- ===== src/Parser/Pdu.antt =====
-- `parsePDU` of include/iec_core/iec/iec_parser.h as a whole: how much it reads.
use bpf_program.Base.{
  ℕ, ◌+◌, ◌%◌, ◌^◌, ◌≤◌, ◌<◌, ◌≡◌, refl, ap, arith, inl, inr, leb, Bool-cases, All,
}
use bpf_program.Bytes.{ByteOrder}
use bpf_program.Buffer.{add_size, sub_size, read_u16}
use bpf_program.Buffer.Word.{IsBytes, word_at, word_at2-lt}
use bpf_program.Buffer.Reads.{read_u16-word_at}
use bpf_program.Asdu.{PduHeader, IsAsdu, sizeof_pdu_header}
use bpf_program.Parser.{read_header, parse_pdu}
use bpf_program.Parser.State.{ParserState, Outcome, done, rejected, fault, reading}
use bpf_program.Parser.Moves.{Post}
use bpf_program.Parser.Bounds.{Within-parse_body}

-- The header that stands at an offset.
abbrev pub header_at : ParserState → PduHeader
header_at s = record {
  app_id = word_at 2 s.buffer.bytes s.buffer.offset;
  length = word_at 2 s.buffer.bytes (s.buffer.offset + 2);
  res1 = word_at 2 s.buffer.bytes (s.buffer.offset + 4);
  res2 = word_at 2 s.buffer.bytes (s.buffer.offset + 6);
}

abbrev pub behind_header : ParserState → ParserState
behind_header s = record s { buffer = record s.buffer { offset = s.buffer.offset + 8 } }

-- The most that one PDU can be read to hold: header, tags and lengths, and 16 ASDUs.
abbrev pub max_pdu : ℕ
max_pdu = 1895

pub record PduMoved (s s' : ParserState) : Type 0 where
  pub least : s.buffer.offset + 8 ≤ s'.buffer.offset
  pub most : s'.buffer.offset ≤ s.buffer.offset + max_pdu
  pub bytes_eq : s'.buffer.bytes ≡ s.buffer.bytes
  pub written_eq : s'.buffer.written ≡ s.buffer.written
  pub asdus : All IsAsdu s.sequence → All IsAsdu s'.sequence

abbrev pub PduPost : ParserState → Outcome (Unit {0}) → Type 0
PduPost s (done _ s') = PduMoved s s' × (s'.buffer.offset ≡ s.buffer.offset + (header_at s).length)
PduPost s (rejected s') = PduMoved s s'
PduPost s fault = ⊥

abbrev behind : ℕ → ParserState → ParserState
behind n s = record s { buffer = record s.buffer { offset = s.buffer.offset + n } }

module _ (order : ByteOrder) where
  reading-word :
      (s : ParserState)
      → IsBytes s.buffer.bytes
      → s.buffer.offset + 2 < 2 ^ 64
      → reading (read_u16 order) s ≡ done (word_at 2 s.buffer.bytes s.buffer.offset) (behind 2 s)
  reading-word s bytes small =
      let e : add_size s.buffer.offset 2 ≡ s.buffer.offset + 2 = omega arith in
      rw (read_u16-word_at order s.buffer bytes small) (
        ap
          (λ o.
            done (word_at 2 s.buffer.bytes s.buffer.offset)
              (record s { buffer = record s.buffer { offset = o } }))
          e)

  pub read_header-at :
      (s : ParserState)
      → IsBytes s.buffer.bytes
      → s.buffer.offset + 8 < 2 ^ 64
      → read_header order s ≡ done (header_at s) (behind_header s)
  unfolding read_header
  read_header-at s bytes small =
      rw
        (
          reading-word s bytes (omega arith),
          reading-word (behind 2 s) bytes (omega arith),
          reading-word (behind 2 (behind 2 s)) bytes (omega arith),
          reading-word (behind 2 (behind 2 (behind 2 s))) bytes (omega arith),
        )
        (ground arith)

  body-PduPost :
      (s : ParserState)
      → IsBytes s.buffer.bytes
      → 0 < (header_at s).length
      → (r : Outcome (Unit {0}))
      → Post
          (λ _ s'. s'.frame_length ≡ 0 % 2 ^ 16)
          1887
          (record (behind_header s) {
            frame_length = sub_size (header_at s).length sizeof_pdu_header % 2 ^ 16;
          })
          r
      → PduPost s r
  body-PduPost s bytes nonzero (done u s') (p, h) = (
    record {
      least = omega arith;
      most = omega arith;
      bytes_eq = p.bytes_eq;
      written_eq = p.written_eq;
      asdus = p.asdus;
    },
    omega (arith, word_at2-lt s.buffer.bytes (s.buffer.offset + 2) bytes),
  )
  body-PduPost s bytes nonzero (rejected s') p = record {
    least = omega arith;
    most = omega arith;
    bytes_eq = p.bytes_eq;
    written_eq = p.written_eq;
    asdus = p.asdus;
  }
  body-PduPost s bytes nonzero fault p = p

  pub parse_pdu-PduPost :
      (s : ParserState)
      → IsBytes s.buffer.bytes
      → s.buffer.offset + max_pdu < 2 ^ 64
      → PduPost s (parse_pdu order s)
  unfolding parse_pdu
  parse_pdu-PduPost s bytes small = elim (Bool-cases (leb (header_at s).length 0)) [
    | inl empty ↦
        rw (read_header-at s bytes (omega arith), empty)
          (record {
            least = omega arith;
            most = omega arith;
            bytes_eq = refl;
            written_eq = refl;
            asdus = λ all. all;
          })
    | inr filled ↦
        rw (read_header-at s bytes (omega arith), filled)
          (body-PduPost s bytes (ground arith) _
            ((Within-parse_body order).run _ bytes (omega arith)))
  ]

-- A PDU that `parsePDU` accepts was read exactly to the end that its header's length field gives,
-- if the buffer holds bytes and its offset is not within the largest PDU of wrapping.
pub parse_pdu-length :
    (order : ByteOrder) (s s' : ParserState)
    → IsBytes s.buffer.bytes
    → s.buffer.offset + max_pdu < 2 ^ 64
    → parse_pdu order s ≡ done tt s'
    → s'.buffer.offset ≡ s.buffer.offset + word_at 2 s.buffer.bytes (s.buffer.offset + 2)
parse_pdu-length order s s' bytes small accepted =
    (rw accepted at (parse_pdu-PduPost order s bytes small)).1
