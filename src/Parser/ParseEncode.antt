-- ===== src/Parser/ParseEncode.antt =====
-- `parse` of include/iec_core/iec/iec_parser.h at a buffer that holds encoded frames.
use bpf_program.Base.{
  ℕ, ◌+◌, ◌%◌, ◌^◌, ◌<◌, ◌≡◌, refl, sym, ap, ◌∙◌, arith, false, List, ◌++◌, leb, length, drop,
  length-append, length-drop, drop-append, drop-drop,
}
use bpf_program.Bytes.{ByteOrder, to_be}
use bpf_program.Buffer.{sub_size}
use bpf_program.Buffer.Word.{IsBytes}
use bpf_program.Asdu.{Asdu, sizeof_pdu_header}
use bpf_program.Parser.{parse_body, parse_pdu}
use bpf_program.Parser.State.{ParserState, done}
use bpf_program.Parser.Consumes.{Ahead, Consumes, after, at_offset_path, word_at-drop}
use bpf_program.Parser.Pdu.{header_at, behind_header, read_header-at}

-- At the offset of the buffer stand `bs` and then `rest`.
pub record Holds (s : ParserState) (bs rest : List ℕ) : Type 0 where
  pub drop_eq : drop s.buffer.offset s.buffer.bytes ≡ bs ++ rest
  pub more : 0 < length rest
  pub small : length s.buffer.bytes < 2 ^ 64
  pub bytes : IsBytes s.buffer.bytes

pub Holds-offset :
    {s : ParserState} {bs rest : List ℕ}
    → Holds s bs rest
    → s.buffer.offset + length bs < length s.buffer.bytes
Holds-offset {s} {bs} {rest} h = omega (
  arith,
  ap length h.drop_eq,
  length-drop s.buffer.offset s.buffer.bytes,
  length-append bs rest,
  h.more,
)

-- The drop at an offset further on.
pub drop-later :
    (s : ParserState) (n : ℕ) (bs cs : List ℕ)
    → drop s.buffer.offset s.buffer.bytes ≡ bs ++ cs
    → length bs ≡ n
    → drop (s.buffer.offset + n) s.buffer.bytes ≡ cs
drop-later s n bs cs e l =
    sym (drop-drop n s.buffer.offset s.buffer.bytes)
    ∙ ap (drop n) e
    ∙ ap (λ k. drop k (bs ++ cs)) (sym l)
    ∙ drop-append bs cs

-- A PDU whose body the parser consumes.
module _ (order : ByteOrder) (app_id size res1 res2 : ℕ) (body : List ℕ) (out : List Asdu)
    (consumed : Consumes 0 (parse_body order) body tt out) (size_eq : size ≡ 8 + length body)
    (fits : size < 2 ^ 16) where
  abbrev header : List ℕ
  header = to_be 2 app_id ++ (to_be 2 size ++ (to_be 2 res1 ++ to_be 2 res2))

  length-header :
      (s : ParserState) (rest : List ℕ)
      → Holds s (header ++ body) rest
      → (header_at s).length ≡ size
  length-header s rest h =
      word_at-drop s.buffer.bytes (s.buffer.offset + 2) (to_be 2 size)
        (to_be 2 res1 ++ (to_be 2 res2 ++ (body ++ rest)))
        (drop-later s 2 (to_be 2 app_id) _ h.drop_eq refl) (omega arith)
      ∙ omega arith

  body-Ahead :
      (s : ParserState) (rest : List ℕ)
      → Holds s (header ++ body) rest
      → Ahead 0
          (record (behind_header s) { frame_length = sub_size size sizeof_pdu_header % 2 ^ 16 })
          body
          rest
  body-Ahead s rest h = record {
    drop_eq = drop-later s 8 header (body ++ rest) h.drop_eq refl;
    more = h.more;
    small = h.small;
    bytes = h.bytes;
    remain = omega arith;
    fits = omega arith;
  }

  pub parse_pdu-header :
      (s : ParserState) (rest : List ℕ)
      → Holds s (header ++ body) rest
      → parse_pdu order s ≡ done tt (after 0 (8 + length body) out s)
  unfolding parse_pdu
  parse_pdu-header s rest h =
      let filled : leb size 0 ≡ false = ground arith in
      rw
        (
          read_header-at order s h.bytes (omega (arith, Holds-offset h, h.small)),
          length-header s rest h,
          filled,
        )
        (consumed.run _ rest (body-Ahead s rest h)
          ∙ ap (done tt) (at_offset_path s (omega arith) refl refl))
