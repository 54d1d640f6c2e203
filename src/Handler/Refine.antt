-- ===== src/Handler/Refine.antt =====
-- The handler of include/iec_core/handlers/number_crusher.h on buffers of encoded frames, against
-- one that is given the ASDUs themselves.
use bpf_program.Base.{ℕ, ◌^◌, ◌<◌, ◌≡◌, refl, ap, ◌∙◌, List, [], ◌∷◌, ◌++◌, length, All, map}
use bpf_program.Bytes.{ByteOrder}
use bpf_program.Buffer.{StaticBuffer}
use bpf_program.Buffer.Word.{IsBytes}
use bpf_program.Asdu.{Asdu}
use bpf_program.Parser.{Run, finished, faulted, out_of_fuel, move_sequence, parse}
use bpf_program.Parser.State.{ParserState}
use bpf_program.Parser.Encode.{Frame, IsFrame, encode_frames, frames_asdus}
use bpf_program.Parser.Decode.{parse-encode_frames}
use bpf_program.Points.{Float}
use bpf_program.Handler.{
  Digest, NumberCrusher, Fate, goes_on, terminated, broken, digest_asdus, with_parser, after_parse,
  crush, and_on, crush_all,
}

-- A buffer that holds encoded frames, with `rest` behind them.
pub record IsFilled (frames : List Frame) (b : StaticBuffer) : Type 0 where
  pub rest : List ℕ
  pub content : b.bytes ≡ encode_frames frames ++ rest
  pub room : 0 < length rest
  pub start : b.offset ≡ 0
  pub filled : b.written ≡ length (encode_frames frames)
  pub small : length b.bytes < 2 ^ 64
  pub bytes : IsBytes b.bytes
  pub valid : All IsFrame frames

-- The buffers hold the groups of frames.
abbrev pub AreFilled : List (List Frame) → List StaticBuffer → Type 0
AreFilled [] [] = Unit
AreFilled (g ∷ gs) (b ∷ bs) = IsFilled g b × AreFilled gs bs
AreFilled [] (b ∷ bs) = ⊥
AreFilled (g ∷ gs) [] = ⊥

move_sequence-empty :
    (r : Run ParserState) {out : List Asdu} {s : ParserState}
    → move_sequence r ≡ finished (out, s)
    → s.sequence ≡ []
move_sequence-empty (finished t) {s = s} e =
    let same : s ≡ record t { sequence = [] } = cc in ap (λ (x : ParserState). x.sequence) same
move_sequence-empty faulted e = cc
move_sequence-empty out_of_fuel e = cc

module _ {F : Type 0} (f : Float F) where
  -- The handler behind the parser.
  abbrev pub digest_all : List (List Asdu) → Digest F → Fate (Digest F)
  digest_all [] d = goes_on d
  digest_all (asdus ∷ rest) d = and_on (digest_asdus f asdus d) (digest_all rest)

  abbrev pub without_parser : Fate (NumberCrusher F) → Fate (Digest F)
  without_parser (goes_on c) = goes_on c.digest
  without_parser terminated = terminated
  without_parser broken = broken

  without_parser-and_on :
      (r : Fate (Digest F)) (s : ParserState) (next : NumberCrusher F → Fate (NumberCrusher F))
      (after : Digest F → Fate (Digest F))
      → ((d : Digest F) → without_parser (next (record { parser = s; digest = d })) ≡ after d)
      → without_parser (and_on (with_parser f s r) next) ≡ and_on r after
  without_parser-and_on (goes_on d) s next after h = h d
  without_parser-and_on terminated s next after h = refl
  without_parser-and_on broken s next after h = refl

  crush-IsFilled :
      (order : ByteOrder) (g : List Frame) (b : StaticBuffer) (c : NumberCrusher F)
      → c.parser.sequence ≡ []
      → IsFilled g b
      → (s : ParserState) × (s.sequence ≡ [])
        × (crush f order b c ≡ with_parser f s (digest_asdus f (frames_asdus g) c.digest))
  unfolding crush after_parse parse
  crush-IsFilled order g b c e h =
      let start : ParserState = record c.parser { buffer = b } in
      let (s, p) =
        parse-encode_frames order g h.rest start h.valid h.content h.start h.filled e h.room h.small
          h.bytes in
      (s, move_sequence-empty _ p, ap (after_parse f c.digest) p)

  pub crush_all-digest_all :
      (order : ByteOrder) (groups : List (List Frame)) (bs : List StaticBuffer)
      (c : NumberCrusher F)
      → c.parser.sequence ≡ []
      → AreFilled groups bs
      → without_parser (crush_all f order bs c) ≡ digest_all (map frames_asdus groups) c.digest
  unfolding crush_all
  crush_all-digest_all order [] [] c e h = refl
  crush_all-digest_all order (g ∷ gs) (b ∷ bs) c e (h, hs) =
      let (s, empty, p) = crush-IsFilled order g b c e h in
      ap (λ r. without_parser (and_on r (crush_all f order bs))) p
      ∙ without_parser-and_on (digest_asdus f (frames_asdus g) c.digest) s _ _
          (λ d. crush_all-digest_all order gs bs (record { parser = s; digest = d }) empty hs)
  crush_all-digest_all order [] (b ∷ bs) c e h = absurd h
  crush_all-digest_all order (g ∷ gs) [] c e h = absurd h
