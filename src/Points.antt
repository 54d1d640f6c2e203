-- ===== src/Points.antt =====
-- `IecParser::convert`, `Point`, and the bit fields of a data unit, of
-- include/iec_core/iec/iec_parser.h. What the code does with an `f32` is a parameter.
pub mod Fields
pub mod Scale
mod Tests
use bpf_program.Base.{
  ℕ, suc, ◌+◌, ◌-◌, ◌/◌, ◌%◌, ◌^◌, Bool, List, [], ◌∷◌, ◌++◌, map, ltb, if◌then◌else◌,
}
use bpf_program.Base.Int.{ℤ}
use bpf_program.Bytes.{ByteOrder, little_endian, big_endian}
use bpf_program.Asdu.{DataUnit, Asdu, units_per_asdu}

-- The type f32 with `static_cast<f32>` of an integer, the operators, `/ 2`, the two constants of
-- `convert` and the limits that include/iec_core/algo uses.
pub record Float (F : Type 0) : Type 0 where
  pub of_int : ℤ → F
  pub add : F → F → F
  pub sub : F → F → F
  pub mul : F → F → F
  pub halve : F → F
  pub lt : F → F → Bool
  pub amp_scale : F
  pub vol_scale : F
  pub min : F
  pub max : F

module _ {F : Type 0} (f : Float F) where
  -- A `Point` is its array.
  abbrev pub Point : Type 0
  Point = List F

  -- The inner loop, at `i` and the units from `i` on.
  unfoldable pub point_values : ℕ → List DataUnit → List F
  point_values i [] = []
  point_values i (u ∷ us) =
      f.mul (f.of_int u.inst_mag) (if ltb i (units_per_asdu / 2) then f.amp_scale else f.vol_scale)
      ∷ point_values (suc i) us

  -- The outer loop, at what is left of `from`.
  unfoldable pub convert : List Asdu → List (List F) → List (List F)
  convert [] to = to
  convert (a ∷ rest) to = convert rest (to ++ (point_values 0 a.units ∷ []))

-- The bit fields of `bitset`, which start at the least significant bit on a little-endian machine
-- and at the most significant one on a big-endian machine.
pub record Bitfield : Type 0 where
  pub reserved : ℕ
  pub der : ℕ
  pub op_b : ℕ
  pub test : ℕ
  pub src : ℕ
  pub d_qual : ℕ
  pub valid : ℕ

abbrev pub bit_field : ByteOrder → (total start width x : ℕ) → ℕ
bit_field little_endian total start width x = (x / 2 ^ start) % 2 ^ width
bit_field big_endian total start width x = (x / 2 ^ (total - start - width)) % 2 ^ width

unfoldable pub bitfield : ByteOrder → ℕ → Bitfield
bitfield order x = record {
  reserved = bit_field order 16 0 2 x;
  der = bit_field order 16 2 1 x;
  op_b = bit_field order 16 3 1 x;
  test = bit_field order 16 4 1 x;
  src = bit_field order 16 5 1 x;
  d_qual = bit_field order 16 6 8 x;
  valid = bit_field order 16 14 2 x;
}

pub record DetailQual : Type 0 where
  pub overflow : ℕ
  pub out_of_range : ℕ
  pub bad_reference : ℕ
  pub oscillatory : ℕ
  pub failure : ℕ
  pub old_data : ℕ
  pub inconsistent : ℕ
  pub inaccurate : ℕ

unfoldable pub detail_qual : ByteOrder → ℕ → DetailQual
detail_qual order x = record {
  overflow = bit_field order 8 0 1 x;
  out_of_range = bit_field order 8 1 1 x;
  bad_reference = bit_field order 8 2 1 x;
  oscillatory = bit_field order 8 3 1 x;
  failure = bit_field order 8 4 1 x;
  old_data = bit_field order 8 5 1 x;
  inconsistent = bit_field order 8 6 1 x;
  inaccurate = bit_field order 8 7 1 x;
}

unfoldable pub get_quality : ByteOrder → DataUnit → DetailQual
get_quality order u = detail_qual order (bitfield order u.bitset).d_qual
