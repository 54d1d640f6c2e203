-- ===== src/Parser/RoundTrip.antt =====
-- The parser of include/iec_core/iec/iec_parser.h at encoded ASDUs and sequences of them.
use bpf_program.Base.{
  ℕ, ◌+◌, ◌*◌, ◌/◌, ◌%◌, ◌^◌, ◌≤◌, ◌<◌, ◌≡◌, refl, arith, true, not, ◌||◌, List, [], ◌∷◌, ◌==◌, ltb,
  lt→ltb, le→ltb, bit_and, length, All, every_below, every_below-at,
}
use native.Mathlib.Decide.{dec_lt}
use bpf_program.Base.Int.{of_i32, to_i32-of_i32, of_i32-lt}
use bpf_program.Bytes.{ByteOrder, to_be}
use bpf_program.Asdu.{DataUnit, Asdu, IsDataUnit, IsAsdu}
use bpf_program.Parser.{
  asdu_rest, asn_bytes, parse_asn_length, parse_data_unit, parse_data_units, parse_sv_id,
  parse_smp_cnt, parse_conf_rev, parse_smp_synch, parse_dataset, parse_asdu, parse_asdus,
}
use bpf_program.Parser.State.{return, require, sub_u8}
use bpf_program.Parser.Encode.{
  Sample, IsSample, encode_length, encode_unit, encode_units, encode_id, encode_cnt, encode_rev,
  encode_synch, encode_dataset, encode_sample, encode_samples, asdus_of,
}
use bpf_program.Parser.Consumes.{
  Consumes, Consumes-bind, Consumes-value, Consumes-nil, Consumes-return, Consumes-require,
  Consumes-push_back, Consumes-pass, Consumes-read_byte, Consumes-read_word, Consumes-read_dword,
  Consumes-expect,
}

-- The bit that tells a long length from a short one is clear below 128.
short_table : every_below (λ x. bit_and x 0x80 == 0) 128 ≡ true
unfolding every_below
short_table = refl

module _ (order : ByteOrder) where
  pub Consumes-short : (n x : ℕ) → x < 128 → Consumes n (parse_asn_length order) (x ∷ []) x []
  unfolding parse_asn_length
  Consumes-short n x h =
      Consumes-bind _ (Consumes-read_byte order _ x)
        (rw (every_below-at (λ y. bit_and y 0x80 == 0) 128 x h short_table) (Consumes-return n x))

  Consumes-long1 : (n x : ℕ) → x < 256 → Consumes n (parse_asn_length order) (0x81 ∷ x ∷ []) x []
  unfolding parse_asn_length asn_bytes
  Consumes-long1 n x h = Consumes-bind _ (Consumes-read_byte order _ 0x81) (
      Consumes-bind _ (Consumes-read_byte order _ x)
        (Consumes-value (omega arith) (Consumes-return n ((0 + x) % 2 ^ 32))))

  Consumes-long2 :
      (n x : ℕ) → x < 2 ^ 16 → Consumes n (parse_asn_length order) (0x82 ∷ to_be 2 x) x []
  unfolding parse_asn_length asn_bytes
  Consumes-long2 n x h =
      let high = (0 + x / 256 % 256) % 2 ^ 32 * 2 ^ 8 % 2 ^ 32 in
      Consumes-bind _ (Consumes-read_byte order _ 0x82) (
        Consumes-bind _ (Consumes-read_byte order _ (x / 256 % 256)) (
          Consumes-bind _ (Consumes-read_byte order _ (x % 256))
            (Consumes-value (omega arith) (Consumes-return n ((high + x % 256) % 2 ^ 32)))))

  pub Consumes-length :
      (n x : ℕ) → x < 2 ^ 16 → Consumes n (parse_asn_length order) (encode_length x) x []
  Consumes-length n x h = elim (dec_lt x 128) [
    | yes short ↦ rw (lt→ltb x 128 short) (Consumes-short n x short)
    | no long ↦ elim (dec_lt x 256) [
      | yes one ↦ rw (le→ltb x 128 (omega arith), lt→ltb x 256 one) (Consumes-long1 n x one)
      | no two ↦ rw (le→ltb x 128 (omega arith), le→ltb x 256 (omega arith)) (Consumes-long2 n x h)
    ]
  ]

  Consumes-unit :
      (n : ℕ) (u : DataUnit)
      → IsDataUnit u
      → Consumes n (parse_data_unit order) (encode_unit u) u []
  unfolding parse_data_unit
  Consumes-unit n u h =
      Consumes-bind _
        (Consumes-read_dword order _ (of_i32 u.inst_mag) (of_i32-lt u.inst_mag h.inst_mag_range))
        (Consumes-bind _ (Consumes-read_word order _ u.quality h.quality_range) (
          Consumes-bind _ (Consumes-read_word order _ u.bitset h.bitset_range) (
            Consumes-value
              (λ i. record u { inst_mag = to_i32-of_i32 u.inst_mag h.inst_mag_range i })
              (Consumes-return n _))))

  Consumes-units :
      (us : List DataUnit) (n : ℕ)
      → All IsDataUnit us
      → Consumes n (parse_data_units order (length us)) (encode_units us) us []
  unfolding parse_data_units
  Consumes-units [] n h = Consumes-return n []
  Consumes-units (u ∷ us) n h = Consumes-bind _ (Consumes-unit _ u h.0) (
      Consumes-nil (encode_units us)
        (Consumes-bind _ (Consumes-units us (0 + n) h.1) (Consumes-return n (u ∷ us))))

  Consumes-dataset :
      (n : ℕ) (a : Asdu) → IsAsdu a → Consumes n (parse_dataset order) (encode_dataset a) a.units []
  unfolding parse_dataset
  Consumes-dataset n a h = Consumes-bind _ (Consumes-expect order _ 0x87) (
      Consumes-bind _ (Consumes-expect order _ 64)
        (rw h.units_count at (Consumes-units a.units n h.units_range)))

  Consumes-id :
      (n : ℕ) (id : List ℕ)
      → 10 ≤ length id
      → length id ≤ 34
      → Consumes n (parse_sv_id order) (encode_id id) 79 []
  unfolding parse_sv_id
  Consumes-id n id least most =
      let l = length id in
      Consumes-bind _ (Consumes-expect order _ 0x30) (
        Consumes-bind _ (Consumes-read_byte order _ (81 + l)) (
          Consumes-bind _
            (Consumes-require _ (not (ltb (81 + l) 91 || ltb 115 (81 + l))) (ground arith))
            (Consumes-bind _ (Consumes-expect order _ 0x80) (
              Consumes-bind _ (Consumes-read_byte order _ l) (
                Consumes-bind _ (Consumes-require _ (not (ltb l 10 || ltb 34 l)) (ground arith)) (
                  Consumes-nil id (
                    Consumes-bind (λ _. return (sub_u8 (81 + l) (1 + 1 + l))) (Consumes-pass _ id)
                      (Consumes-value (omega arith)
                        (Consumes-return n (sub_u8 (81 + l) (1 + 1 + l)))))))))))

  Consumes-cnt :
      (n : ℕ) (a : Asdu) → IsAsdu a → Consumes n (parse_smp_cnt order) (encode_cnt a) a.smp_cnt []
  unfolding parse_smp_cnt
  Consumes-cnt n a h = Consumes-bind _ (Consumes-expect order _ 0x82) (
      Consumes-bind _ (Consumes-expect order _ 2)
        (Consumes-read_word order n a.smp_cnt h.smp_cnt_range))

  Consumes-rev :
      (n : ℕ) (a : Asdu) → IsAsdu a → Consumes n (parse_conf_rev order) (encode_rev a) a.conf_rev []
  unfolding parse_conf_rev
  Consumes-rev n a h = Consumes-bind _ (Consumes-expect order _ 0x83) (
      Consumes-bind _ (Consumes-expect order _ 4)
        (Consumes-read_dword order n a.conf_rev h.conf_rev_range))

  Consumes-synch :
      (n : ℕ) (a : Asdu) → Consumes n (parse_smp_synch order) (encode_synch a) a.smp_synch []
  unfolding parse_smp_synch
  Consumes-synch n a =
      Consumes-bind _ (Consumes-expect order _ 0x85)
        (Consumes-bind _ (Consumes-expect order _ 1) (Consumes-read_byte order n a.smp_synch))

  pub Consumes-asdu :
      (n : ℕ) (x : Sample)
      → IsSample x
      → Consumes n (parse_asdu order) (encode_sample x) tt (x.asdu ∷ [])
  unfolding parse_asdu
  Consumes-asdu n x h =
      let a = x.asdu in
      let r = h.asdu_range in
      Consumes-bind _ (Consumes-id _ x.sv_id h.id_least h.id_most) (
        Consumes-bind _ (Consumes-cnt _ a r) (
          Consumes-bind _ (Consumes-rev _ a r) (
            Consumes-bind _ (Consumes-synch _ a) (
              Consumes-nil (encode_dataset a) (
                Consumes-bind _ (Consumes-dataset _ a r) (
                  Consumes-bind (λ _. require (asdu_rest 79 == 0)) (Consumes-push_back _ a)
                    (Consumes-require n (asdu_rest 79 == 0) refl)))))))

  pub Consumes-asdus :
      (n : ℕ) (xs : List Sample)
      → All IsSample xs
      → Consumes n (parse_asdus order (length xs)) (encode_samples xs) tt (asdus_of xs)
  unfolding parse_asdus
  Consumes-asdus n [] h = Consumes-return n tt
  Consumes-asdus n (x ∷ xs) h = Consumes-bind _ (Consumes-asdu _ x h.0) (Consumes-asdus n xs h.1)
