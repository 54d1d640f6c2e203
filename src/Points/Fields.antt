-- ===== src/Points/Fields.antt =====
-- The bit fields of include/iec_core/iec/iec_parser.h against words put together by hand.
use bpf_program.Base.{ℕ, ◌+◌, ◌*◌, ◌^◌, ◌<◌, ◌≡◌, ap, ◌∙◌, arith, List, [], ◌∷◌}
use bpf_program.Bytes.{ByteOrder, little_endian, big_endian}
use bpf_program.Asdu.{DataUnit}
use bpf_program.Points.{Bitfield, DetailQual, bitfield, detail_qual, get_quality}

-- Digits of the given widths, the least significant first, and the most significant first.
abbrev pub weigh : ByteOrder → List (ℕ × ℕ) → ℕ
weigh little_endian fields = from_low fields
  where
    from_low : List (ℕ × ℕ) → ℕ
    from_low [] = 0
    from_low ((width, x) ∷ rest) = x + 2 ^ width * from_low rest
weigh big_endian fields = from_high 0 fields
  where
    from_high : ℕ → List (ℕ × ℕ) → ℕ
    from_high acc [] = acc
    from_high acc ((width, x) ∷ rest) = from_high (2 ^ width * acc + x) rest

abbrev pub detail_fields : DetailQual → List (ℕ × ℕ)
detail_fields q =
    (1, q.overflow)
    ∷ (1, q.out_of_range)
    ∷ (1, q.bad_reference)
    ∷ (1, q.oscillatory)
    ∷ (1, q.failure)
    ∷ (1, q.old_data)
    ∷ (1, q.inconsistent)
    ∷ (1, q.inaccurate)
    ∷ []

abbrev pub bitset_fields : Bitfield → List (ℕ × ℕ)
bitset_fields b =
    (2, b.reserved)
    ∷ (1, b.der)
    ∷ (1, b.op_b)
    ∷ (1, b.test)
    ∷ (1, b.src)
    ∷ (8, b.d_qual)
    ∷ (2, b.valid)
    ∷ []

-- The values that the widths of the fields allow.
pub record IsDetailQual (q : DetailQual) : Type 0 where
  pub overflow_range : q.overflow < 2
  pub out_of_range_range : q.out_of_range < 2
  pub bad_reference_range : q.bad_reference < 2
  pub oscillatory_range : q.oscillatory < 2
  pub failure_range : q.failure < 2
  pub old_data_range : q.old_data < 2
  pub inconsistent_range : q.inconsistent < 2
  pub inaccurate_range : q.inaccurate < 2

pub record IsBitfield (b : Bitfield) : Type 0 where
  pub reserved_range : b.reserved < 4
  pub der_range : b.der < 2
  pub op_b_range : b.op_b < 2
  pub test_range : b.test < 2
  pub src_range : b.src < 2
  pub d_qual_range : b.d_qual < 256
  pub valid_range : b.valid < 4

detail_ext :
    (q r : DetailQual)
    → q.overflow ≡ r.overflow
    → q.out_of_range ≡ r.out_of_range
    → q.bad_reference ≡ r.bad_reference
    → q.oscillatory ≡ r.oscillatory
    → q.failure ≡ r.failure
    → q.old_data ≡ r.old_data
    → q.inconsistent ≡ r.inconsistent
    → q.inaccurate ≡ r.inaccurate
    → q ≡ r
detail_ext q r a b c d e f g h = cc

detail_qual-weigh :
    (order : ByteOrder) (q : DetailQual)
    → IsDetailQual q
    → detail_qual order (weigh order (detail_fields q)) ≡ q
unfolding detail_qual
detail_qual-weigh little_endian q h =
    detail_ext _ q (omega arith) (omega arith) (omega arith) (omega arith) (omega arith)
      (omega arith) (omega arith) (omega arith)
detail_qual-weigh big_endian q h =
    detail_ext _ q (omega arith) (omega arith) (omega arith) (omega arith) (omega arith)
      (omega arith) (omega arith) (omega arith)

d_qual-bitfield :
    (order : ByteOrder) (b : Bitfield)
    → IsBitfield b
    → (bitfield order (weigh order (bitset_fields b))).d_qual ≡ b.d_qual
unfolding bitfield
d_qual-bitfield little_endian b h = omega arith
d_qual-bitfield big_endian b h = omega arith

-- From a word that is put together from the fields of `bitset`, the field dQual in turn from the
-- detail qualities, `getQuality` returns these, on machines of either byte order, if each is within
-- its width.
pub get_quality-weigh :
    (order : ByteOrder) (u : DataUnit) (b : Bitfield) (q : DetailQual)
    → IsBitfield b
    → IsDetailQual q
    → b.d_qual ≡ weigh order (detail_fields q)
    → u.bitset ≡ weigh order (bitset_fields b)
    → get_quality order u ≡ q
unfolding get_quality
get_quality-weigh order u b q wide detail inner outer =
    ap (λ x. detail_qual order (bitfield order x).d_qual) outer
    ∙ ap (detail_qual order) (d_qual-bitfield order b wide ∙ inner)
    ∙ detail_qual-weigh order q detail
