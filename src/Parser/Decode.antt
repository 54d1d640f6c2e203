-- ===== src/Parser/Decode.antt =====
-- `parse` of include/iec_core/iec/iec_parser.h returns what a buffer of encoded frames says.
use mathlib.Core.List.{append-nil, append_assoc}
use mathlib.Core.Path.{subst}
use bpf_program.Base.{
  ℕ, zero, suc, ◌+◌, ◌-◌, ◌^◌, ◌≤◌, ◌<◌, ◌≡◌, refl, sym, ap, ◌∙◌, arith, List, [], ◌∷◌, ◌++◌,
  length, All, length-append,
}
use bpf_program.Bytes.{ByteOrder}
use bpf_program.Buffer.{append_offset}
use bpf_program.Buffer.Word.{IsBytes}
use bpf_program.Asdu.{Asdu, sizeof_ether_header}
use bpf_program.Parser.{Run, finished, next_round, parse_pdu, parse_frames, move_sequence, parse}
use bpf_program.Parser.State.{ParserState, done}
use bpf_program.Parser.Encode.{
  Frame, IsFrame, asdus_of, encode_body, encode_header, encode_frame, encode_frames, frames_asdus,
}
use bpf_program.Parser.Consumes.{after}
use bpf_program.Parser.Total.{parse_frames_more, parse_frames_over}
use bpf_program.Parser.Frames.{encode_body-le, Consumes-body}
use bpf_program.Parser.ParseEncode.{Holds, Holds-offset, drop-later, parse_pdu-header}

-- The loop of `parse` has ended behind what was written, with `out` added to the sequence.
pub record Decoded (s : ParserState) (out : List Asdu) (r : Run ParserState) : Type 0 where
  pub final : ParserState
  pub returns : r ≡ finished final
  pub sequence_eq : final.sequence ≡ s.sequence ++ out
  pub offset_eq : final.buffer.offset ≡ s.buffer.written

abbrev started : ParserState → ParserState
started s = record s { buffer = append_offset sizeof_ether_header s.buffer }

module _ (ether pdu frames rest : List ℕ) (ether_length : length ether ≡ 14)
    (more : 0 < length rest) where
  started-offset :
      (s : ParserState)
      → Holds s ((ether ++ pdu) ++ frames) rest
      → (started s).buffer.offset ≡ s.buffer.offset + 14
  started-offset s h =
      omega (
        arith,
        Holds-offset h,
        h.small,
        length-append (ether ++ pdu) frames,
        length-append ether pdu,
      )

  behind_ether :
      (s : ParserState)
      → Holds s ((ether ++ pdu) ++ frames) rest
      → Holds (started s) pdu (frames ++ rest)
  behind_ether s h = record {
    drop_eq = rw (started-offset s h) (
        drop-later s 14 ether (pdu ++ (frames ++ rest))
          (h.drop_eq
            ∙ append_assoc (ether ++ pdu) frames rest
            ∙ append_assoc ether pdu (frames ++ rest))
          ether_length);
    more = omega (arith, length-append frames rest);
    small = h.small;
    bytes = h.bytes;
  }

  behind_pdu :
      (t : ParserState) (k : ℕ) (out : List Asdu)
      → k ≡ length pdu
      → Holds t pdu (frames ++ rest)
      → Holds (after 0 k out t) frames rest
  behind_pdu t k out e h = record {
    drop_eq = drop-later t k pdu (frames ++ rest) h.drop_eq (sym e);
    more = more;
    small = h.small;
    bytes = h.bytes;
  }

  behind_written :
      (s : ParserState) (k : ℕ)
      → k ≡ length pdu
      → Holds s ((ether ++ pdu) ++ frames) rest
      → s.buffer.written ≡ s.buffer.offset + length ((ether ++ pdu) ++ frames)
      → (s.buffer.offset < s.buffer.written)
        × (s.buffer.written ≡ (started s).buffer.offset + k + length frames)
  behind_written s k e h w =
      omega
        (arith, started-offset s h, length-append (ether ++ pdu) frames, length-append ether pdu)

Decoded-round :
    {s t : ParserState} (out1 out2 : List Asdu) {r : Run ParserState}
    → t.sequence ≡ s.sequence ++ out1
    → t.buffer.written ≡ s.buffer.written
    → Decoded t out2 r
    → Decoded s (out1 ++ out2) r
Decoded-round {s} out1 out2 e w d = record {
  final = d.final;
  returns = d.returns;
  sequence_eq = d.sequence_eq ∙ ap (λ q. q ++ out2) e ∙ append_assoc s.sequence out1 out2;
  offset_eq = d.offset_eq ∙ w;
}

add-eight : (n : ℕ) → 8 + n ≡ suc (suc (suc (suc (suc (suc (suc (suc n)))))))
add-eight n = omega arith

length-frames-le : (fs : List Frame) → All IsFrame fs → length fs ≤ length (encode_frames fs)
length-frames-le [] v = omega arith
length-frames-le (f ∷ fs) (v, vs) = omega (
  arith,
  length-append (encode_frame f) (encode_frames fs),
  length-append f.ether_header (encode_header f ++ encode_body f.samples),
  v.ether_length,
  length-frames-le fs vs,
)

module _ (order : ByteOrder) where
  parse_pdu-frame :
      (f : Frame) (t : ParserState) (rest : List ℕ)
      → IsFrame f
      → Holds t (encode_header f ++ encode_body f.samples) rest
      → parse_pdu order t
        ≡ done tt (after 0 (8 + length (encode_body f.samples)) (asdus_of f.samples) t)
  parse_pdu-frame f t rest v h =
      let le = encode_body-le f.samples v.samples_range v.most in
      parse_pdu-header order f.app_id (8 + length (encode_body f.samples)) f.res1 f.res2
        (encode_body f.samples) (asdus_of f.samples)
        (Consumes-body order f.samples v.samples_range v.least v.most) refl (omega arith) t rest h

  pub parse_frames-Decoded :
      (fs : List Frame) (fuel : ℕ) (s : ParserState) (rest : List ℕ)
      → All IsFrame fs
      → length fs < fuel
      → 0 < length rest
      → Holds s (encode_frames fs) rest
      → s.buffer.written ≡ s.buffer.offset + length (encode_frames fs)
      → Decoded s (frames_asdus fs) (parse_frames order fuel s)
  parse_frames-Decoded fs zero s rest valid enough more h w = elim enough [ ]
  parse_frames-Decoded [] (suc fuel) s rest valid enough more h w = record {
    final = s;
    returns = parse_frames_over order fuel s (omega arith);
    sequence_eq = sym (append-nil s.sequence);
    offset_eq = omega arith;
  }
  parse_frames-Decoded (f ∷ fs) (suc fuel) s rest (v, vs) enough more h w =
      let pdu = encode_header f ++ encode_body f.samples in
      let frames = encode_frames fs in
      let t = started s in
      let pdu_length = add-eight (length (encode_body f.samples)) in
      let k = 8 + length (encode_body f.samples) in
      let ht = behind_ether f.ether_header pdu frames rest v.ether_length more s h in
      let next = after 0 k (asdus_of f.samples) t in
      let (below, w') =
        behind_written f.ether_header pdu frames rest v.ether_length more s k pdu_length h w in
      let hn =
        behind_pdu f.ether_header pdu frames rest v.ether_length more t k (asdus_of f.samples)
          pdu_length ht in
      let step =
        parse_frames_more order fuel s below
        ∙ ap (next_round (parse_frames order fuel)) (parse_pdu-frame f t (frames ++ rest) v ht) in
      subst (λ r. Decoded s (asdus_of f.samples ++ frames_asdus fs) r) (sym step)
        (Decoded-round (asdus_of f.samples) (frames_asdus fs) refl refl
          (parse_frames-Decoded fs fuel next rest vs (omega arith) more hn w'))

-- A buffer that was filled with encoded frames, and whose array is longer than they are, is parsed
-- to exactly the ASDUs that the frames were made from, in order: every frame has 1 to 16 ASDUs, a
-- sample value identifier of 10 to 34 bytes before each, and values in the ranges of their types.
pub parse-encode_frames :
    (order : ByteOrder) (fs : List Frame) (rest : List ℕ) (s : ParserState)
    → All IsFrame fs
    → s.buffer.bytes ≡ encode_frames fs ++ rest
    → s.buffer.offset ≡ 0
    → s.buffer.written ≡ length (encode_frames fs)
    → s.sequence ≡ []
    → 0 < length rest
    → length s.buffer.bytes < 2 ^ 64
    → IsBytes s.buffer.bytes
    → (s' : ParserState) × (parse order s ≡ finished (frames_asdus fs, s'))
unfolding parse
parse-encode_frames order fs rest s valid content start filled fresh more small bytes =
    let holds : Holds s (encode_frames fs) rest = record {
      drop_eq = rw start content;
      more = more;
      small = small;
      bytes = bytes;
    } in
    let fuel = suc (s.buffer.written - s.buffer.offset) in
    let d =
      parse_frames-Decoded order fs fuel s rest valid (omega (arith, length-frames-le fs valid))
        more holds (omega arith) in
    let out = d.sequence_eq ∙ ap (λ q. q ++ frames_asdus fs) fresh in
    (
      record d.final { sequence = [] },
      ap move_sequence d.returns ∙ ap (λ q. finished (q, record d.final { sequence = [] })) out,
    )
