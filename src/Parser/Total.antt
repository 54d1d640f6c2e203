-- ===== src/Parser/Total.antt =====
-- `parse` of include/iec_core/iec/iec_parser.h ends, on every content of the buffer.
use bpf_program.Base.{
  ℕ, zero, suc, ◌+◌, ◌-◌, ◌^◌, ◌≤◌, ◌<◌, ◌≡◌, refl, ap, ◌∙◌, arith, List, [], lt→ltb, All,
}
use native.Mathlib.Decide.{dec_lt}
use bpf_program.Bytes.{ByteOrder}
use bpf_program.Buffer.{append_offset}
use bpf_program.Buffer.Word.{IsBytes}
use bpf_program.Asdu.{Asdu, IsAsdu, sizeof_ether_header}
use bpf_program.Parser.{
  Run, finished, faulted, out_of_fuel, parse_pdu, next_round, parse_frames, move_sequence, parse,
}
use bpf_program.Parser.State.{ParserState, Outcome, done, rejected, fault}
use bpf_program.Parser.Pdu.{PduMoved, PduPost, parse_pdu-PduPost}

-- The most that one round of the loop moves the offset.
abbrev pub max_frame : ℕ
max_frame = 1909

-- The loop has ended in `s'`, started from `s`.
pub record Ended (s s' : ParserState) : Type 0 where
  pub behind : s.buffer.written ≤ s'.buffer.offset
  pub bytes_eq : s'.buffer.bytes ≡ s.buffer.bytes
  pub written_eq : s'.buffer.written ≡ s.buffer.written
  pub asdus : All IsAsdu s.sequence → All IsAsdu s'.sequence

abbrev pub Ends : ParserState → Run ParserState → Type 0
Ends s (finished s') = Ended s s'
Ends s faulted = ⊥
Ends s out_of_fuel = ⊥

record RoundMoved (s s' : ParserState) : Type 0 where
  further : s.buffer.offset < s'.buffer.offset
  bytes_eq : s'.buffer.bytes ≡ s.buffer.bytes
  written_eq : s'.buffer.written ≡ s.buffer.written
  asdus : All IsAsdu s.sequence → All IsAsdu s'.sequence

Ends-after : {s t : ParserState} (r : Run ParserState) → RoundMoved s t → Ends t r → Ends s r
Ends-after (finished u) p e = record {
  behind = omega arith;
  bytes_eq = e.bytes_eq ∙ p.bytes_eq;
  written_eq = e.written_eq ∙ p.written_eq;
  asdus = λ all. e.asdus (p.asdus all);
}
Ends-after faulted p e = e
Ends-after out_of_fuel p e = e

round :
    (s t : ParserState)
    → s.buffer.offset + 14 < 2 ^ 64
    → PduMoved (record s { buffer = append_offset sizeof_ether_header s.buffer }) t
    → RoundMoved s t
round s t small p = record {
  further = omega arith;
  bytes_eq = p.bytes_eq;
  written_eq = p.written_eq;
  asdus = p.asdus;
}

-- The rest of the loop is started where a round ended.
next_round-Ends :
    (s : ParserState) (rest : ParserState → Run ParserState) (r : Outcome (Unit {0}))
    → s.buffer.offset + 14 < 2 ^ 64
    → PduPost (record s { buffer = append_offset sizeof_ether_header s.buffer }) r
    → ((t : ParserState) → RoundMoved s t → Ends t (rest t))
    → Ends s (next_round rest r)
next_round-Ends s rest (done _ t) small (p, _) h =
    let moved = round s t small p in Ends-after (rest t) moved (h t moved)
next_round-Ends s rest (rejected t) small p h =
    let moved = round s t small p in Ends-after (rest t) moved (h t moved)
next_round-Ends s rest fault small p h = p

module _ (order : ByteOrder) where
  pub parse_frames_more :
      (fuel : ℕ) (s : ParserState)
      → s.buffer.offset < s.buffer.written
      → parse_frames order (suc fuel) s
        ≡ next_round
            (parse_frames order fuel)
            (parse_pdu order (record s { buffer = append_offset sizeof_ether_header s.buffer }))
  unfolding parse_frames
  parse_frames_more fuel s h = rw (lt→ltb s.buffer.offset s.buffer.written h, parse_frames)

  pub parse_frames_over :
      (fuel : ℕ) (s : ParserState)
      → s.buffer.written ≤ s.buffer.offset
      → parse_frames order (suc fuel) s ≡ finished s
  unfolding parse_frames
  parse_frames_over fuel s h = ground arith

  pub parse_frames-Ends :
      (fuel : ℕ) (s : ParserState)
      → IsBytes s.buffer.bytes
      → s.buffer.written + max_frame ≤ 2 ^ 64
      → s.buffer.written - s.buffer.offset < fuel
      → Ends s (parse_frames order fuel s)
  parse_frames-Ends zero s bytes small enough = elim enough [ ]
  parse_frames-Ends (suc fuel) s bytes small enough =
      elim (dec_lt s.buffer.offset s.buffer.written) [
        | no over ↦ rw (parse_frames_over fuel s (omega arith)) (record {
          behind = omega arith;
          bytes_eq = refl;
          written_eq = refl;
          asdus = λ all. all;
        })
        | yes more ↦
            let start = append_offset sizeof_ether_header s.buffer in
            rw (parse_frames_more fuel s more) (
              next_round-Ends s (parse_frames order fuel) _ (omega arith)
                (parse_pdu-PduPost order (record s { buffer = start }) bytes (omega arith))
                λ t moved.
                  parse_frames-Ends fuel t (rw moved.bytes_eq bytes) (omega arith) (omega arith))
      ]

Ends-finished :
    (s : ParserState) (r : Run ParserState)
    → Ends s r
    → (s' : ParserState) × (r ≡ finished s') × Ended s s'
Ends-finished s (finished s') e = (s', refl, e)
Ends-finished s faulted e = absurd e
Ends-finished s out_of_fuel e = absurd e

-- `parse` returns, whatever bytes the buffer holds, if what was written is not within the largest
-- frame of the end of the address space: it reads nothing outside the array, goes on to the end of
-- what was written, leaves the bytes as they are and the parser with an empty sequence, and each
-- ASDU that it returns has eight data units and values in the ranges of their types.
pub parse_total :
    (order : ByteOrder) (s : ParserState)
    → IsBytes s.buffer.bytes
    → s.buffer.written + max_frame ≤ 2 ^ 64
    → All IsAsdu s.sequence
    → (asdus : List Asdu) × (s' : ParserState) × (parse order s ≡ finished (asdus, s'))
      × All IsAsdu asdus
      × (s'.sequence ≡ [])
      × (s.buffer.written ≤ s'.buffer.offset)
      × (s'.buffer.bytes ≡ s.buffer.bytes)
unfolding parse
parse_total order s bytes small all =
    let fuel = suc (s.buffer.written - s.buffer.offset) in
    let (t, ended, e) =
      Ends-finished s (parse_frames order fuel s)
        (parse_frames-Ends order fuel s bytes small (omega arith)) in
    (
      t.sequence,
      record t { sequence = [] },
      ap move_sequence ended,
      e.asdus all,
      refl,
      e.behind,
      e.bytes_eq,
    )
