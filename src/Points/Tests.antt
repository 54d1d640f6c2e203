-- ===== src/Points/Tests.antt =====
-- The bit fields of a data unit of which four bits are set.
use bpf_program.Base.{◌≡◌, refl}
use bpf_program.Base.Int.{pos}
use bpf_program.Bytes.{little_endian}
use bpf_program.Asdu.{DataUnit}
use bpf_program.Points.{Bitfield, DetailQual, bitfield, detail_qual, get_quality}

abbrev unit : DataUnit
unit = record { inst_mag = pos 5; quality = 0; bitset = 0xa144 }

abbrev fields : Bitfield
fields = record { reserved = 0; der = 1; op_b = 0; test = 0; src = 0; d_qual = 0x85; valid = 2 }

abbrev quality : DetailQual
quality = record {
  overflow = 1;
  out_of_range = 0;
  bad_reference = 1;
  oscillatory = 0;
  failure = 0;
  old_data = 0;
  inconsistent = 0;
  inaccurate = 1;
}

quality_run : get_quality little_endian unit ≡ quality
unfolding get_quality bitfield detail_qual
quality_run = refl
