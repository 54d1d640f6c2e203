-- ===== src/Asdu.antt =====
-- The data types of include/iec_core/iec/iec_parser.h.
use bpf_program.Base.{ℕ, ◌<◌, ◌^◌, ◌≡◌, List, length, All}
use bpf_program.Base.Int.{ℤ, IsI32}

pub record PduHeader : Type 0 where
  pub app_id : ℕ
  pub length : ℕ
  pub res1 : ℕ
  pub res2 : ℕ

-- `bitset` is the member `_data` of the union of that name.
pub record DataUnit : Type 0 where
  pub inst_mag : ℤ
  pub quality : ℕ
  pub bitset : ℕ

abbrev pub units_per_asdu : ℕ
units_per_asdu = 8

-- `sizeof` of the packed `PDUHeader`, of the `DataUnit` union and of libc's `ether_header`.
abbrev pub sizeof_pdu_header : ℕ
sizeof_pdu_header = 8

abbrev pub sizeof_data_unit : ℕ
sizeof_data_unit = 8

abbrev pub sizeof_ether_header : ℕ
sizeof_ether_header = 14

pub record Asdu : Type 0 where
  pub smp_cnt : ℕ
  pub smp_synch : ℕ
  pub conf_rev : ℕ
  pub units : List DataUnit

-- The values that the members' C++ types allow.
pub record IsDataUnit (u : DataUnit) : Type 0 where
  pub inst_mag_range : IsI32 u.inst_mag
  pub quality_range : u.quality < 2 ^ 16
  pub bitset_range : u.bitset < 2 ^ 16

pub record IsAsdu (a : Asdu) : Type 0 where
  pub smp_cnt_range : a.smp_cnt < 2 ^ 16
  pub smp_synch_range : a.smp_synch < 2 ^ 8
  pub conf_rev_range : a.conf_rev < 2 ^ 32
  pub units_count : length a.units ≡ units_per_asdu
  pub units_range : All IsDataUnit a.units
