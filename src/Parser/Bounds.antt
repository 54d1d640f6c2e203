-- ===== src/Parser/Bounds.antt =====
-- Bounds on what each function of the parser reads.
use bpf_program.Base.{
  ℕ, zero, suc, ◌+◌, ◌*◌, ◌%◌, ◌^◌, ◌≤◌, ◌<◌, ◌≡◌, refl, ap, arith, [], ◌∷◌, not, ◌||◌, true, false,
  inl, inr, ltb, ◌==◌, if◌then◌else◌, Bool-cases, bit_and, length, All,
}
use bpf_program.Base.Int.{to_i32-IsI32}
use bpf_program.Bytes.{ByteOrder}
use bpf_program.Asdu.{IsDataUnit, units_per_asdu}
use bpf_program.Parser.{
  verify, asdu_rest, read_byte, read_word, read_dword, expect, asn_bytes, parse_asn_length,
  parse_data_unit, parse_data_units, parse_sv_id, parse_smp_cnt, parse_conf_rev, parse_smp_synch,
  parse_dataset, parse_asdu, parse_asdus, parse_sequence, parse_body,
}
use bpf_program.Parser.State.{return, require, pass, push_back, sub_u8}
use bpf_program.Parser.Moves.{
  Within, Always, Within-bind, Within-mono, Within-return, Within-require, Within-push_back,
  Within-pass, Within-guard, Moved-refl, Within-if,
}
use bpf_program.Parser.Reads.{Within-read_byte, Within-read_word, Within-read_dword}

le_of_in_range : (x lo hi : ℕ) → not (ltb x lo || ltb hi x) ≡ true → x ≤ hi
le_of_in_range x lo hi h = ground arith

count_le : (x : ℕ) → not (ltb 16 x || ltb x 1) ≡ true → x ≤ 16
count_le x h = ground arith

le_of_not_lt : (x n : ℕ) → ltb n x ≡ false → x ≤ n
le_of_not_lt x n h = ground arith

pub Within-verify : (n : ℕ) → Within 0 (verify n) (λ _ s. s.frame_length ≡ n % 2 ^ 16)
unfolding verify
Within-verify n = record {
  run = λ s bytes small. elim (Bool-cases (s.frame_length == n % 2 ^ 16)) [
    | inl same ↦ rw same (Moved-refl 0 s, ground arith)
    | inr other ↦ rw other (Moved-refl 0 s)
  ];
}

Within-verify_only : (n : ℕ) → Within 0 (verify n) Always
Within-verify_only n =
    Within-mono 0 0 (verify n) _ Always (omega arith) (λ _ _ _. tt) (Within-verify n)

module _ (order : ByteOrder) where
  pub Within-expect : (wanted : ℕ) → Within 1 (expect order wanted) Always
  unfolding expect
  Within-expect wanted =
      Within-bind 1 0 (read_byte order) _ _ Always (Within-read_byte order)
        λ x _. Within-guard (x == wanted)

  Within-asn_bytes : (left total : ℕ) → Within left (asn_bytes order left total) Always
  unfolding asn_bytes
  Within-asn_bytes zero total = Within-return total Always (λ _. tt)
  Within-asn_bytes (suc left) total =
      let next =
        λ (x : ℕ). let t = (total + x) % 2 ^ 32 in if ltb 0 left then (t * 2 ^ 8) % 2 ^ 32 else t in
      Within-mono (1 + left) (suc left) _ Always Always (omega arith) (λ _ _ _. tt)
        (Within-bind 1 left (read_byte order) (λ x. asn_bytes order left (next x)) _ Always
          (Within-read_byte order) λ x _. Within-asn_bytes left (next x))

  pub Within-parse_asn_length : Within 5 (parse_asn_length order) Always
  unfolding parse_asn_length
  Within-parse_asn_length =
      Within-bind 1 4 (read_byte order) _ _ Always (Within-read_byte order) λ first _.
        let n = bit_and first 0x7f in
        let long = if ltb 4 n then return 0 else asn_bytes order n 0 in
        Within-if 4 (bit_and first 0x80 == 0) (return first) long Always
          (λ _.
            Within-mono 0 4 (return first) Always Always (omega arith) (λ _ _ _. tt)
              (Within-return first Always (λ _. tt)))
          (λ _.
            Within-if 4 (ltb 4 n) (return 0) (asn_bytes order n 0) Always
              (λ _.
                Within-mono 0 4 (return 0) Always Always (omega arith) (λ _ _ _. tt)
                  (Within-return 0 Always (λ _. tt)))
              (λ short.
                Within-mono n 4 (asn_bytes order n 0) Always Always (le_of_not_lt n 4 short)
                  (λ _ _ _. tt) (Within-asn_bytes n 0)))

  pub Within-parse_data_unit : Within 8 (parse_data_unit order) (λ u _. IsDataUnit u)
  unfolding parse_data_unit
  Within-parse_data_unit =
      Within-bind 4 4 (read_dword order) _ _ _ (Within-read_dword order) λ mag mag_range.
        Within-bind 2 2 (read_word order) _ _ _ (Within-read_word order) λ quality quality_range.
          Within-bind 2 0 (read_word order) _ _ _ (Within-read_word order) λ bitset bitset_range.
            Within-return _ (λ u _. IsDataUnit u)
              (λ _. record {
                inst_mag_range = to_i32-IsI32 mag mag_range;
                quality_range = quality_range;
                bitset_range = bitset_range;
              })

  Within-parse_data_units :
      (n : ℕ)
      → Within (n * 8) (parse_data_units order n) (λ us _. (length us ≡ n) × All IsDataUnit us)
  unfolding parse_data_units
  Within-parse_data_units zero =
      Within-return [] (λ us _. (length us ≡ 0) × All IsDataUnit us) (λ _. (refl, tt))
  Within-parse_data_units (suc n) =
      Within-mono (8 + (n * 8 + 0)) (suc n * 8) _ _ _ (omega arith) (λ _ _ h. h)
        (Within-bind 8 (n * 8 + 0) (parse_data_unit order) _ _ _ Within-parse_data_unit
          λ unit unit_range.
            Within-bind (n * 8) 0 (parse_data_units order n) _ _ _ (Within-parse_data_units n)
              λ units h.
                Within-return (unit ∷ units) (λ us _. (length us ≡ suc n) × All IsDataUnit us)
                  (λ _. (ap suc h.0, (unit_range, h.1))))

  pub Within-parse_sv_id : Within 38 (parse_sv_id order) Always
  unfolding parse_sv_id
  Within-parse_sv_id = Within-bind 1 37 (expect order 0x30) _ _ Always (Within-expect 0x30) λ _ _.
      Within-bind 1 36 (read_byte order) _ _ Always (Within-read_byte order) λ asdu_length _.
        Within-bind 0 36 (require (not (ltb asdu_length 91 || ltb 115 asdu_length))) _ _ Always
          (Within-guard _)
          λ _ _. Within-bind 1 35 (expect order 0x80) _ _ Always (Within-expect 0x80) λ _ _.
            Within-bind 1 34 (read_byte order) _ _ Always (Within-read_byte order) λ id_length _.
              Within-bind 0 34 (require (not (ltb id_length 10 || ltb 34 id_length))) _
                (λ _. id_length ≤ 34) Always
                (Within-mono 0 0 _ _ _ (omega arith) (λ _ _ h. le_of_in_range id_length 10 34 h)
                  (Within-require (not (ltb id_length 10 || ltb 34 id_length))))
                λ _ le.
                  Within-bind 34 0 (pass id_length) _ _ Always
                    (Within-pass 34 id_length le (omega arith))
                    λ _ _. Within-return (sub_u8 asdu_length (1 + 1 + id_length)) Always (λ _. tt)

  pub Within-parse_smp_cnt : Within 4 (parse_smp_cnt order) (λ x _. x < 2 ^ 16)
  unfolding parse_smp_cnt
  Within-parse_smp_cnt =
      Within-bind 1 3 (expect order 0x82) _ _ _ (Within-expect 0x82) λ _ _.
        Within-bind 1 2 (expect order 2) _ _ _ (Within-expect 2) λ _ _. Within-read_word order

  pub Within-parse_conf_rev : Within 6 (parse_conf_rev order) (λ x _. x < 2 ^ 32)
  unfolding parse_conf_rev
  Within-parse_conf_rev =
      Within-bind 1 5 (expect order 0x83) _ _ _ (Within-expect 0x83) λ _ _.
        Within-bind 1 4 (expect order 4) _ _ _ (Within-expect 4) λ _ _. Within-read_dword order

  pub Within-parse_smp_synch : Within 3 (parse_smp_synch order) (λ x _. x < 2 ^ 8)
  unfolding parse_smp_synch
  Within-parse_smp_synch =
      Within-bind 1 2 (expect order 0x85) _ _ _ (Within-expect 0x85) λ _ _.
        Within-bind 1 1 (expect order 1) _ _ _ (Within-expect 1) λ _ _. Within-read_byte order

  pub Within-parse_dataset :
      Within 66 (parse_dataset order) (λ us _. (length us ≡ units_per_asdu) × All IsDataUnit us)
  unfolding parse_dataset
  Within-parse_dataset = Within-bind 1 65 (expect order 0x87) _ _ _ (Within-expect 0x87) λ _ _.
      Within-bind 1 64 (expect order _) _ _ _ (Within-expect _) λ _ _. Within-parse_data_units 8

  pub Within-parse_asdu : Within 117 (parse_asdu order) Always
  unfolding parse_asdu
  Within-parse_asdu =
      Within-bind 38 79 (parse_sv_id order) _ _ Always Within-parse_sv_id λ after_id _.
        Within-bind 4 75 (parse_smp_cnt order) _ _ Always Within-parse_smp_cnt λ cnt cnt_range.
          Within-bind 6 69 (parse_conf_rev order) _ _ Always Within-parse_conf_rev λ rev rev_range.
            Within-bind 3 66 (parse_smp_synch order) _ _ Always Within-parse_smp_synch
              λ synch synch_range.
                Within-bind 66 0 (parse_dataset order) _ _ Always Within-parse_dataset
                  λ units units_range.
                    Within-bind 0 0 (push_back _) (λ _. require (asdu_rest after_id == 0)) _ Always
                      (Within-push_back _ (record {
                        smp_cnt_range = cnt_range;
                        smp_synch_range = synch_range;
                        conf_rev_range = rev_range;
                        units_count = units_range.0;
                        units_range = units_range.1;
                      }))
                      λ _ _. Within-guard _

  pub Within-parse_asdus : (n : ℕ) → Within (n * 117) (parse_asdus order n) Always
  unfolding parse_asdus
  Within-parse_asdus zero = Within-return tt Always (λ _. tt)
  Within-parse_asdus (suc n) =
      Within-mono (117 + n * 117) (suc n * 117) _ Always Always (omega arith) (λ _ _ h. h)
        (Within-bind 117 (n * 117) (parse_asdu order) _ _ _ Within-parse_asdu
          λ _ _. Within-parse_asdus n)

  pub Within-parse_sequence :
      (n : ℕ) → n ≤ 16 → Within 1878 (parse_sequence order n) (λ _ s. s.frame_length ≡ 0)
  unfolding parse_sequence
  Within-parse_sequence n h =
      Within-bind 1 1877 (expect order 0xa2) _ _ _ (Within-expect 0xa2) λ _ _.
        Within-bind 5 1872 (parse_asn_length order) _ _ _ Within-parse_asn_length λ length _.
          Within-bind 0 1872 (verify length) _ _ _ (Within-verify_only length) λ _ _.
            Within-bind 1872 0 (parse_asdus order n) _ _ _
              (Within-mono (n * 117) 1872 _ Always Always (omega arith) (λ _ _ _. tt)
                (Within-parse_asdus n))
              λ _ _. Within-verify 0

  pub Within-parse_body : Within 1887 (parse_body order) (λ _ s. s.frame_length ≡ 0)
  unfolding parse_body
  Within-parse_body = Within-bind 1 1886 (expect order 0x60) _ _ _ (Within-expect 0x60) λ _ _.
      Within-bind 5 1881 (parse_asn_length order) _ _ _ Within-parse_asn_length λ length _.
        Within-bind 0 1881 (verify length) _ _ _ (Within-verify_only length) λ _ _.
          Within-bind 1 1880 (expect order 0x80) _ _ _ (Within-expect 0x80) λ _ _.
            Within-bind 1 1879 (expect order 1) _ _ _ (Within-expect 1) λ _ _.
              Within-bind 1 1878 (read_byte order) _ _ _ (Within-read_byte order) λ n _.
                Within-bind 0 1878 (require (not (ltb 16 n || ltb n 1))) _ (λ _. n ≤ 16) _
                  (Within-mono 0 0 _ _ _ (omega arith) (λ _ _ h. count_le n h)
                    (Within-require (not (ltb 16 n || ltb n 1))))
                  λ _ le. Within-parse_sequence n le
