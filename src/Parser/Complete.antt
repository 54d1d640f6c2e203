-- ===== src/Parser/Complete.antt =====
-- The parser of include/iec_core/iec/iec_parser.h at a body in the layout that it accepts, whatever
-- number of bytes its lengths have.
use bpf_program.Base.{
  ℕ, ◌+◌, ◌≤◌, refl, sym, ◌∙◌, arith, not, ◌||◌, List, [], ◌∷◌, ltb, length, All,
}
use bpf_program.Bytes.{ByteOrder}
use bpf_program.Parser.{asn_bytes, parse_asn_length, parse_sequence, parse_body}
use bpf_program.Parser.Encode.{Sample, IsSample, encode_samples, asdus_of}
use bpf_program.Parser.Consumes.{
  Consumes, Consumes-bind, Consumes-last, Consumes-value, Consumes-return, Consumes-require,
  Consumes-verify, Consumes-read_byte, Consumes-expect,
}
use bpf_program.Parser.RoundTrip.{Consumes-short, Consumes-asdus}
use bpf_program.Parser.Lengths.{
  IsLength, short, long, Counted, asn_value, asn_value-step, asn_value-of_be,
}

module _ (order : ByteOrder) where
  Consumes-asn_bytes :
      (n : ℕ) (ds : List ℕ) (total : ℕ)
      → Consumes n (asn_bytes order (length ds) total) ds (asn_value total ds) []
  unfolding asn_bytes asn_value
  Consumes-asn_bytes n [] total = Consumes-return n total
  Consumes-asn_bytes n (x ∷ ds) total =
      Consumes-bind _ (Consumes-read_byte order _ x)
        (Consumes-value (asn_value-step total x ds) (Consumes-asn_bytes n ds _))

  Consumes-long :
      (n : ℕ) (ds : List ℕ)
      → length ds ≤ 4
      → Consumes n (parse_asn_length order) ((128 + length ds) ∷ ds) (asn_value 0 ds) []
  unfolding parse_asn_length
  Consumes-long n [] h =
      Consumes-bind _ (Consumes-read_byte order _ 128) (Consumes-asn_bytes n [] 0)
  Consumes-long n (x ∷ []) h =
      Consumes-bind _ (Consumes-read_byte order _ 129) (Consumes-asn_bytes n (x ∷ []) 0)
  Consumes-long n (x ∷ y ∷ []) h =
      Consumes-bind _ (Consumes-read_byte order _ 130) (Consumes-asn_bytes n (x ∷ y ∷ []) 0)
  Consumes-long n (x ∷ y ∷ z ∷ []) h =
      Consumes-bind _ (Consumes-read_byte order _ 131) (Consumes-asn_bytes n (x ∷ y ∷ z ∷ []) 0)
  Consumes-long n (x ∷ y ∷ z ∷ w ∷ []) h =
      Consumes-bind _ (Consumes-read_byte order _ 132) (Consumes-asn_bytes n (x ∷ y ∷ z ∷ w ∷ []) 0)
  Consumes-long n (x ∷ y ∷ z ∷ w ∷ v ∷ ds) h = absurd (omega arith)

  Consumes-IsLength :
      (n k : ℕ) (bs : List ℕ) → IsLength k bs → Consumes n (parse_asn_length order) bs k []
  Consumes-IsLength n k bs (short _ _ h e) = rw e (Consumes-short order n k h)
  Consumes-IsLength n k bs (long _ _ ds most all e v) =
      rw e (Consumes-value (asn_value-of_be ds most all ∙ sym v) (Consumes-long n ds most))

  module _ (xs : List Sample) (samples : All IsSample xs) (inner : List ℕ)
      (inner_counted : Counted inner (encode_samples xs)) where
    Consumes-inner : Consumes 0 (parse_sequence order (length xs)) (0xa2 ∷ inner) tt (asdus_of xs)
    unfolding parse_sequence
    Consumes-inner =
        let (size, digits, is, same, split) = inner_counted in
        rw split (
          Consumes-bind _ (Consumes-expect order _ 0xa2) (
            Consumes-bind _ (Consumes-IsLength _ size digits is) (
              Consumes-bind _ (Consumes-verify _ size (λ _. omega (arith, same))) (
                Consumes-last (encode_samples xs) (asdus_of xs) (
                  Consumes-bind _ (Consumes-asdus order _ xs samples)
                    (Consumes-verify 0 0 (λ _. refl)))))))

    pub Consumes-layout :
        (body : List ℕ)
        → 1 ≤ length xs
        → length xs ≤ 16
        → Counted body (0x80 ∷ 1 ∷ length xs ∷ 0xa2 ∷ inner)
        → Consumes 0 (parse_body order) (0x60 ∷ body) tt (asdus_of xs)
    unfolding parse_body
    Consumes-layout body least most (size, digits, is, same, split) = rw split (
        Consumes-bind _ (Consumes-expect order _ 0x60) (
          Consumes-bind _ (Consumes-IsLength _ size digits is) (
            Consumes-bind _ (Consumes-verify _ size (λ _. omega (arith, same))) (
              Consumes-bind _ (Consumes-expect order _ 0x80) (
                Consumes-bind _ (Consumes-expect order _ 1) (
                  Consumes-bind _ (Consumes-read_byte order _ (length xs)) (
                    Consumes-bind _
                      (Consumes-require _ (not (ltb 16 (length xs) || ltb (length xs) 1))
                        (ground arith))
                      Consumes-inner)))))))
