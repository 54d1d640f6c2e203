-- ===== src/Parser/Grammar.antt =====
-- What the parser of include/iec_core/iec/iec_parser.h accepts as a PDU.
use mathlib.Core.List.{append-nil}
use bpf_program.Base.{
  ℕ, ◌+◌, ◌*◌, ◌%◌, ◌^◌, ◌≤◌, ◌<◌, ◌≡◌, sym, ap, ◌∙◌, arith, not, ◌||◌, List, [], ◌∷◌, ◌++◌, ◌==◌,
  ltb, length, All,
}
use bpf_program.Bytes.{ByteOrder}
use bpf_program.Parser.{
  verify, read_byte, expect, parse_asn_length, parse_asdus, parse_sequence, parse_body,
}
use bpf_program.Parser.State.{require, ◌>>◌}
use bpf_program.Parser.Encode.{Sample, IsSample, encode_samples, asdus_of}
use bpf_program.Parser.Accepts.{Form, Accepts, Accepts-mono, Accepts-require, Accepts-bind, Nothing}
use bpf_program.Parser.Accepts.Words.{Accepts-read_byte}
use bpf_program.Parser.Accepts.Then.{
  Accepts-word-then, Accepts-then, Accepts-require-then, Accepts-expect-then,
}
use bpf_program.Parser.Accepts.Verified.{
  Accepts-verify-then, EndsEmpty, EndsEmpty-bind, EndsEmpty-verify,
}
use bpf_program.Parser.Asdus.{Accepts-asdus}
use bpf_program.Parser.Lengths.{Counted, Counted-verified, Counted-le, Accepts-length}
use bpf_program.Parser.Frames.{encode_samples-le}

encode_samples-least : (xs : List Sample) → 1 ≤ length xs → 0 < length (encode_samples xs)
encode_samples-least [] h = absurd (omega (arith, h))
encode_samples-least (x ∷ xs) h = omega arith

module _ (order : ByteOrder) where
  Accepts-verify : Accepts 0 (verify 0) (Nothing (λ _. Unit {0}))
  unfolding verify
  Accepts-verify = record {
    run = λ s.
        (Accepts-mono 0 0 (require (s.frame_length == 0)) _ (Nothing (λ _. Unit {0})) (omega arith)
            (λ _ bs out (_, e, e'). (tt, e, e')) (Accepts-require (s.frame_length == 0))).run
          s;
  }

  EndsEmpty-asdus : (n : ℕ) → EndsEmpty (parse_asdus order n >> verify 0)
  EndsEmpty-asdus n = EndsEmpty-bind (parse_asdus order n) (λ _. verify 0) (λ _. EndsEmpty-verify)

  EndsEmpty-sequence : (n : ℕ) → EndsEmpty (parse_sequence order n)
  unfolding parse_sequence
  EndsEmpty-sequence n = EndsEmpty-bind (expect order 0xa2) _ (λ _.
      EndsEmpty-bind (parse_asn_length order) _
        (λ len. EndsEmpty-bind (verify len) _ (λ _. EndsEmpty-asdus n)))

  abbrev SequenceForm : ℕ → Form (Unit {0})
  SequenceForm n _ bs out =
      (xs : List Sample) × (counted : List ℕ) × (length xs ≡ n)
      × All IsSample xs
      × Counted counted (encode_samples xs)
      × (bs ≡ 0xa2 ∷ counted)
      × (out ≡ asdus_of xs)

  Accepts-sequence :
      (n : ℕ) → 1 ≤ n → n ≤ 16 → Accepts (6 + n * 117) (parse_sequence order n) (SequenceForm n)
  unfolding parse_sequence
  Accepts-sequence n least most =
      Accepts-mono (1 + (5 + (n * 117 + 0))) (6 + n * 117) _ _ _ (omega arith)
        (λ _ bs out
            (
              ys,
              e,
              (
                len,
                lf,
                zs,
                lform,
                e2,
                (eq, (_, front, cs, o, q, (xs, count, all, e3, e4), (_, e5, e6), e7, e8)),
              ),
            ).
          let content : zs ≡ encode_samples xs =
            e7 ∙ (λ i. e3 i ++ e5 i) ∙ append-nil (encode_samples xs) in
          (
            xs,
            ys,
            count,
            all,
            Counted-verified len lf ys (encode_samples xs) lform
                (sym (ap (λ l. length l % 2 ^ 16) content) ∙ eq)
                (encode_samples-least xs (omega (arith, count, least)))
                (omega (arith, encode_samples-le xs all, count, most))
                (e2 ∙ ap (λ l. lf ++ l) content),
            e,
            e8 ∙ (λ i. e4 i ++ e6 i) ∙ append-nil (asdus_of xs),
          ))
        (Accepts-expect-then order 0xa2 (5 + (n * 117 + 0)) _ _ (
          Accepts-then 5 (n * 117 + 0) (parse_asn_length order) _ _ _ (Accepts-length order) (λ len.
            Accepts-verify-then len (n * 117 + 0) (parse_asdus order n >> verify 0) _
              (EndsEmpty-asdus n)
              (Accepts-bind (n * 117) 0 (parse_asdus order n) (λ _. verify 0) _ _
                (Accepts-asdus order n) (λ _. Accepts-verify)))))

  abbrev pub BodyForm : Form (Unit {0})
  BodyForm _ bs out =
      (xs : List Sample) × (counted : List ℕ) × (inner : List ℕ) × (1 ≤ length xs)
      × (length xs ≤ 16)
      × All IsSample xs
      × Counted inner (encode_samples xs)
      × Counted counted (0x80 ∷ 1 ∷ length xs ∷ 0xa2 ∷ inner)
      × (bs ≡ 0x60 ∷ counted)
      × (out ≡ asdus_of xs)

  pub Accepts-body : Accepts 1887 (parse_body order) BodyForm
  unfolding parse_body
  Accepts-body =
      Accepts-mono 1887 1887 _ _ _ (omega arith)
        (λ _ bs out
            (
              ys,
              e,
              (
                len,
                lf,
                zs,
                lform,
                e2,
                (
                  eq,
                  (
                    vs,
                    e3,
                    (ws, e4, (n, us, lt, e5, (ok, (xs, inner, count, all, counted, e6, e7)))),
                  ),
                ),
              ),
            ).
          let same : n % 256 ≡ length xs = omega (arith, lt, count) in
          let content : zs ≡ 0x80 ∷ 1 ∷ length xs ∷ 0xa2 ∷ inner =
            e3 ∙ (λ i. 0x80 ∷ (e4 ∙ (λ j. 1 ∷ (e5 ∙ (λ k. same k ∷ e6 k)) j)) i) in
          let small = Counted-le inner (encode_samples xs) counted in
          let most : length xs ≤ 16 = ground (arith, ok, count) in
          (
            xs,
            ys,
            inner,
            ground (arith, ok, count),
            most,
            all,
            counted,
            Counted-verified len lf ys (0x80 ∷ 1 ∷ length xs ∷ 0xa2 ∷ inner) lform
                (sym (ap (λ l. length l % 2 ^ 16) content) ∙ eq) (omega arith)
                (omega (arith, small, encode_samples-le xs all, most))
                (e2 ∙ ap (λ l. lf ++ l) content),
            e,
            e7,
          ))
        (Accepts-expect-then order 0x60 1886 _ _ (
          Accepts-then 5 1881 (parse_asn_length order) _ _ _ (Accepts-length order) (λ len.
            Accepts-verify-then len 1881 _ _
              (EndsEmpty-bind (expect order 0x80) _ (λ _. EndsEmpty-bind (expect order 1) _ (λ _.
                EndsEmpty-bind (read_byte order) _ (λ n.
                  EndsEmpty-bind (require (not (ltb 16 n || ltb n 1))) _
                    (λ _. EndsEmpty-sequence n)))))
              (Accepts-expect-then order 0x80 1880 _ _ (
                Accepts-expect-then order 1 1879 _ _ (
                  Accepts-word-then 1 (2 ^ 8) 1878 (read_byte order) _ _ (Accepts-read_byte order)
                    (λ n. Accepts-require-then (not (ltb 16 n || ltb n 1)) 1878 _ _ (λ ok.
                      Accepts-mono (6 + n * 117) 1878 (parse_sequence order n) (SequenceForm n)
                        (SequenceForm n) (ground (arith, ok)) (λ _ bs out f. f)
                        (Accepts-sequence n (ground (arith, ok)) (ground (arith, ok)))))))))))
