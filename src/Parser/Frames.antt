-- ===== src/Parser/Frames.antt =====
-- `parse` of include/iec_core/iec/iec_parser.h at a buffer of encoded frames.
use bpf_program.Base.{
  ℕ, ◌*◌, ◌^◌, ◌≤◌, ◌<◌, ◌≡◌, refl, arith, not, ◌||◌, List, [], ◌∷◌, ◌++◌, ltb, length, All,
  length-append,
}
use bpf_program.Bytes.{ByteOrder}
use bpf_program.Asdu.{DataUnit}
use bpf_program.Parser.{parse_sequence, parse_body}
use bpf_program.Parser.Encode.{
  Sample, IsSample, encode_length, encode_units, encode_cnt, encode_rev, encode_synch,
  encode_dataset, encode_sample, encode_samples, asdus_of, encode_sequence, encode_counted,
  encode_body,
}
use bpf_program.Parser.Consumes.{
  Consumes, Consumes-bind, Consumes-last, Consumes-require, Consumes-verify, Consumes-read_byte,
  Consumes-expect,
}
use bpf_program.Parser.RoundTrip.{Consumes-length, Consumes-asdus}

-- Bounds on the sizes of what is encoded.
encode_length-le : (n : ℕ) → length (encode_length n) ≤ 3
encode_length-le n = ground arith

pub length-encode_units : (us : List DataUnit) → length (encode_units us) ≡ 8 * length us
length-encode_units [] = refl
length-encode_units (u ∷ us) = omega (arith, length-encode_units us)

encode_sample-le : (x : Sample) → IsSample x → length (encode_sample x) ≤ 117
encode_sample-le x h = omega (
  arith,
  h.id_most,
  h.asdu_range.units_count,
  length-append x.sv_id
      (encode_cnt x.asdu ++ (encode_rev x.asdu ++ (encode_synch x.asdu ++ encode_dataset x.asdu))),
  length-encode_units x.asdu.units,
)

pub encode_samples-le :
    (xs : List Sample) → All IsSample xs → length (encode_samples xs) ≤ 117 * length xs
encode_samples-le [] h = omega arith
encode_samples-le (x ∷ xs) h = omega (
  arith,
  length-append (encode_sample x) (encode_samples xs),
  encode_sample-le x h.0,
  encode_samples-le xs h.1,
)

pub encode_body-le :
    (xs : List Sample) → All IsSample xs → length xs ≤ 16 → length (encode_body xs) ≤ 1883
encode_body-le xs h most =
    let size = length (encode_samples xs) in
    let counted = length (encode_counted xs) in
    omega (
      arith,
      encode_samples-le xs h,
      encode_length-le size,
      encode_length-le counted,
      length-append (encode_length size) (encode_samples xs),
      length-append (encode_length counted) (encode_counted xs),
    )

module _ (order : ByteOrder) (xs : List Sample) (samples : All IsSample xs) (least : 1 ≤ length xs)
    (most : length xs ≤ 16) where
  Consumes-sequence :
      Consumes 0 (parse_sequence order (length xs)) (encode_sequence xs) tt (asdus_of xs)
  unfolding parse_sequence
  Consumes-sequence =
      let size = length (encode_samples xs) in
      let le : size < 2 ^ 16 = omega (arith, encode_samples-le xs samples) in
      Consumes-bind _ (Consumes-expect order _ 0xa2) (
        Consumes-bind _ (Consumes-length order _ size le) (
          Consumes-bind _ (Consumes-verify _ size (λ _. omega arith)) (
            Consumes-last (encode_samples xs) (asdus_of xs) (
              Consumes-bind _ (Consumes-asdus order _ xs samples)
                (Consumes-verify 0 0 (λ _. refl))))))

  pub Consumes-body : Consumes 0 (parse_body order) (encode_body xs) tt (asdus_of xs)
  unfolding parse_body
  Consumes-body =
      let size = length (encode_counted xs) in
      let le : size < 2 ^ 16 = omega (
        arith,
        encode_body-le xs samples most,
        length-append (encode_length size) (encode_counted xs),
      ) in
      Consumes-bind _ (Consumes-expect order _ 0x60) (
        Consumes-bind _ (Consumes-length order _ size le) (
          Consumes-bind _ (Consumes-verify _ size (λ _. omega arith)) (
            Consumes-bind _ (Consumes-expect order _ 0x80) (
              Consumes-bind _ (Consumes-expect order _ 1) (
                Consumes-bind _ (Consumes-read_byte order _ (length xs)) (
                  Consumes-bind _
                    (Consumes-require _ (not (ltb 16 (length xs) || ltb (length xs) 1))
                      (ground arith))
                    Consumes-sequence))))))
