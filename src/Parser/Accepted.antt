-- ===== src/Parser/Accepted.antt =====
-- `parsePDU` of include/iec_core/iec/iec_parser.h on bytes that no encoder has made.
use bpf_program.Base.{
  ℕ, ◌+◌, ◌≤◌, ◌<◌, ◌^◌, ◌≡◌, sym, ap, ◌∙◌, arith, Bool-cases, inl, inr, leb, ◌%◌, List, ◌∷◌, ◌++◌,
  length, All, drop, refl, ◌↔◌, false, length-append, length-drop, take-drop, drop-drop,
}
use bpf_program.Bytes.{ByteOrder}
use bpf_program.Buffer.{sub_size}
use bpf_program.Buffer.Word.{IsBytes, word_at}
use bpf_program.Asdu.{Asdu, sizeof_pdu_header}
use bpf_program.Parser.{parse_body, parse_pdu}
use bpf_program.Parser.State.{ParserState, Outcome, done, rejected, fault}
use bpf_program.Parser.Encode.{Sample, IsSample, encode_samples, asdus_of}
use bpf_program.Parser.Pdu.{header_at, behind_header, max_pdu, read_header-at, parse_pdu-length}
use bpf_program.Parser.Consumes.{Ahead, after, at_offset_path}
use bpf_program.Parser.Frames.{encode_samples-le}
use bpf_program.Parser.Complete.{Consumes-layout}
use bpf_program.Parser.Accepts.{IfDone}
use bpf_program.Parser.Lengths.{Counted, Counted-le}
use bpf_program.Parser.Grammar.{BodyForm, Accepts-body}

-- From the offset of `s` to `o` stands a PDU in the layout of the comments at the top of the source,
-- which makes `out` of the sequence: behind the header 0x60, a length, 0x80, 1, the number of ASDUs,
-- 0xa2, a length and the ASDUs, with both lengths, modulo 2^16, those of what follows them, and the
-- header's length that of the whole.
pub record IsPdu (s : ParserState) (o : ℕ) (out : List Asdu) : Type 0 where
  pub samples : List Sample
  pub sequence : List ℕ
  pub body : List ℕ
  pub least : 1 ≤ length samples
  pub most : length samples ≤ 16
  pub valid : All IsSample samples
  pub sequence_counted : Counted sequence (encode_samples samples)
  pub body_counted : Counted body (0x80 ∷ 1 ∷ length samples ∷ 0xa2 ∷ sequence)
  pub stands : drop (s.buffer.offset + 8) s.buffer.bytes ≡ 0x60 ∷ (body ++ drop o s.buffer.bytes)
  pub size_eq : o ≡ s.buffer.offset + word_at 2 s.buffer.bytes (s.buffer.offset + 2)
  pub asdus_eq : out ≡ s.sequence ++ asdus_of samples

-- The same but for the header's length.
abbrev IfBody : ParserState → Outcome (Unit {0}) → Type 0
IfBody s (done _ s') =
    s'.buffer.offset < length s.buffer.bytes
    → s'.buffer.offset ≡ s.buffer.offset + word_at 2 s.buffer.bytes (s.buffer.offset + 2)
    → IsPdu s s'.buffer.offset s'.sequence
IfBody s (rejected s') = Unit
IfBody s fault = Unit

body-IfBody :
    (order : ByteOrder) (s : ParserState) (n : ℕ) (r : Outcome (Unit {0}))
    → IfDone 1887 (BodyForm order) (record (behind_header s) { frame_length = n }) r
    → IfBody s r
body-IfBody order s n (done _ s') took = λ within size_eq.
    let start = s.buffer.offset + 8 in
    let xs = s.buffer.bytes in
    let (
      out,
      (samples, body, sequence, least, most, valid, sequence_counted, body_counted, e, e'),
      same,
    ) =
      took.inside within in
    record {
      samples = samples;
      sequence = sequence;
      body = body;
      least = least;
      most = most;
      valid = valid;
      sequence_counted = sequence_counted;
      body_counted = body_counted;
      stands =
          sym (take-drop took.count (drop start xs))
          ∙ (λ i. e i ++ drop-drop took.count start xs i)
          ∙ ap (λ o. 0x60 ∷ (body ++ drop o xs)) (sym took.offset_eq);
      size_eq = size_eq;
      asdus_eq = same ∙ ap (λ l. s.sequence ++ l) e';
    }
body-IfBody order s n (rejected s') took = tt
body-IfBody order s n fault took = tt

parse_pdu-IfBody :
    (order : ByteOrder) (s : ParserState)
    → IsBytes s.buffer.bytes
    → s.buffer.offset + max_pdu < 2 ^ 64
    → IfBody s (parse_pdu order s)
unfolding parse_pdu
parse_pdu-IfBody order s bytes small = elim (Bool-cases (leb (header_at s).length 0)) [
  | inl empty ↦ rw (read_header-at order s bytes (omega arith), empty) tt
  | inr filled ↦
      let n = sub_size (header_at s).length sizeof_pdu_header % 2 ^ 16 in
      let t = record (behind_header s) { frame_length = n } in
      rw (read_header-at order s bytes (omega arith), filled)
        (body-IfBody order s n (parse_body order t)
          ((Accepts-body order).run t bytes (omega arith)))
]

module _ (order : ByteOrder) (s : ParserState) (o : ℕ) (out : List Asdu)
    (bytes : IsBytes s.buffer.bytes) (small : s.buffer.offset + max_pdu < 2 ^ 64)
    (array : length s.buffer.bytes < 2 ^ 64) (within : o < length s.buffer.bytes) where
  length-body : (p : IsPdu s o out) → s.buffer.offset + (9 + length p.body) ≡ o
  length-body p = omega (
    arith,
    ap length p.stands,
    length-drop (s.buffer.offset + 8) s.buffer.bytes,
    length-append p.body (drop o s.buffer.bytes),
    length-drop o s.buffer.bytes,
  )

  body-le : (p : IsPdu s o out) → length p.body ≤ 1886
  body-le p = omega (
    arith,
    Counted-le p.body (0x80 ∷ 1 ∷ length p.samples ∷ 0xa2 ∷ p.sequence) p.body_counted,
    Counted-le p.sequence (encode_samples p.samples) p.sequence_counted,
    encode_samples-le p.samples p.valid,
    p.most,
  )

  abbrev last : IsPdu s o out → ParserState
  last p = after 0 (9 + length p.body) (asdus_of p.samples) s

  layout-parse_pdu : (p : IsPdu s o out) → parse_pdu order s ≡ done tt (last p)
  unfolding parse_pdu
  layout-parse_pdu p =
      let size : (header_at s).length ≡ 9 + length p.body =
        omega (arith, length-body p, p.size_eq) in
      let filled : leb (header_at s).length 0 ≡ false = ground arith in
      let n = sub_size (header_at s).length sizeof_pdu_header % 2 ^ 16 in
      let ahead : Ahead 0 (record (behind_header s) { frame_length = n }) (0x60 ∷ p.body)
          (drop o s.buffer.bytes) =
        record {
          drop_eq = p.stands;
          more = omega (arith, length-drop o s.buffer.bytes);
          small = array;
          bytes = bytes;
          remain = omega (arith, size, body-le p);
          fits = omega (arith, body-le p);
        } in
      rw (read_header-at order s bytes (omega arith), filled)
        ((Consumes-layout order p.samples p.valid p.sequence p.sequence_counted p.body p.least
              p.most p.body_counted).run
            _ (drop o s.buffer.bytes) ahead
          ∙ ap (done tt) (at_offset_path s (omega arith) refl refl))

  -- Whatever bytes the buffer holds: `parsePDU` accepts at an offset and goes on to one before the
  -- array's last byte, with one content of the sequence, exactly if between the two offsets stands a
  -- PDU in the source's layout, with 1 to 16 ASDUs, whose header has the length of the whole and
  -- whose other two lengths, each written in up to five bytes and taken modulo 2^16, are those of
  -- what follows them, and that content is what was in the sequence and then the ASDUs that stand in
  -- the PDU, in order. The array has fewer than 2^64 bytes, and the first offset is not within a
  -- largest PDU of 2^64.
  pub parse_pdu-IsPdu :
      ((s' : ParserState) × (parse_pdu order s ≡ done tt s')
        × (s'.buffer.offset ≡ o)
        × (s'.sequence ≡ out))
      ↔ IsPdu s o out
  parse_pdu-IsPdu = (
    λ (s', accepted, same, same_out).
        rw (same, same_out) at
          ((rw accepted at (parse_pdu-IfBody order s bytes small)) (rw same within)
            (parse_pdu-length order s s' bytes small accepted)),
    λ p. (last p, layout-parse_pdu p, length-body p, sym p.asdus_eq),
  )
