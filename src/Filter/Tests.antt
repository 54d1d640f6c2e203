-- ===== src/Filter/Tests.antt =====
-- The program of bpf/ethernet-parse.c at packets of one and of two ASDUs, with loads that take the
-- bytes of a list.
use bpf_program.Base.{
  ℕ, ◌+◌, ◌≤◌, ◌<◌, ◌≡◌, ◌≢◌, refl, ◌↔◌, true, false, none, some, List, [], ◌∷◌, ◌++◌, length, take,
  drop, arith, length-append, take-append, drop-append, leb, if◌then◌else◌,
}
use bpf_program.Base.Int.{pos}
use bpf_program.Bytes.{of_be}
use bpf_program.Asdu.{DataUnit}
use bpf_program.Parser.Encode.{Sample, IsSample}
use bpf_program.Filter.{
  Load, Ethernet, Settings, same_from, sv_id_cmp, compare_id, pdu_size, iec61850_filter,
}
use bpf_program.Filter.Loads.{IsLoad, IsEthernet}
use bpf_program.Filter.Shapes.{Packet, bytes, addressed, Matches, filter-long}
use bpf_program.Filter.Frames.{packet, filter-encode_single}
use bpf_program.Filter.Pairs.{filter-encode_pair}

abbrev pub list_load : Load
list_load packet offset count =
    if leb (offset + count) (length packet)
    then some (of_be (take count (drop offset packet)))
    else none

le→leb : (a b : ℕ) → a ≤ b → leb a b ≡ true
le→leb a b h = ground arith

lt→leb : (a b : ℕ) → b < a → leb a b ≡ false
lt→leb a b h = ground arith

pub list_load-IsLoad : IsLoad list_load
list_load-IsLoad = record {
  inside = λ front mid back.
      rw
        (
          le→leb (length front + length mid) (length (front ++ (mid ++ back)))
              (omega (arith, length-append front (mid ++ back), length-append mid back)),
          drop-append front (mid ++ back),
          take-append mid back,
        )
        refl;
  outside = λ packet offset count h. rw (lt→leb (offset + count) (length packet) h) refl;
}

abbrev pub layout : Ethernet
layout = record { size = 14; src = 6; kind = 12 }

pub layout-IsEthernet : IsEthernet layout
layout-IsEthernet = record { size = refl; src = refl; kind = refl }

abbrev unit : DataUnit
unit = record { inst_mag = pos 1000; quality = 0; bitset = 0 }

abbrev text : List ℕ
text =
    b'E' ∷ b'N' ∷ b'S' ∷ b'8' ∷ b'0' ∷ b'p' ∷ b'o' ∷ b'i' ∷ b'n' ∷ b't' ∷ b'M' ∷ b'U' ∷ b'0' ∷ b'1'
    ∷ []

abbrev pub sample : Sample
sample = record {
  sv_id = text;
  asdu = record {
    smp_cnt = 17;
    smp_synch = 2;
    conf_rev = 1;
    units = unit ∷ unit ∷ unit ∷ unit ∷ unit ∷ unit ∷ unit ∷ unit ∷ [];
  };
}

pub sample-IsSample : IsSample sample
sample-IsSample = omega arith

abbrev pub settings : Settings
settings = record { iface_mac = 0xffffffffffff; src_mac = 0x0cefaf3042cc; sv_id = text }

abbrev pub dst : List ℕ
dst = 1 ∷ 12 ∷ 205 ∷ 4 ∷ 0 ∷ 1 ∷ []

abbrev pub src : List ℕ
src = 0x0c ∷ 0xef ∷ 0xaf ∷ 0x30 ∷ 0x42 ∷ 0xcc ∷ []

abbrev pub kind : List ℕ
kind = 0x88 ∷ 0xba ∷ []

abbrev pub start : List ℕ
start = 0x40 ∷ 0 ∷ 0 ∷ 112 ∷ 0 ∷ 0 ∷ 0 ∷ 0 ∷ []

abbrev pub single : Packet
single = packet dst src kind start (sample ∷ []) []

abbrev pair : Packet
pair = packet dst src kind start (sample ∷ sample ∷ []) []

kept_run : iec61850_filter list_load layout settings (bytes single) ≡ some true
unfolding iec61850_filter pdu_size compare_id sv_id_cmp same_from
kept_run = refl

filter-encode_single_example :
    (iec61850_filter list_load layout settings (bytes single) ≡ some true)
    ↔ ((addressed settings single ≡ true) × (text ≡ text))
filter-encode_single_example =
    filter-encode_single list_load-IsLoad layout-IsEthernet settings dst src kind start sample []
      (record { dst = refl; src = refl; kind = refl; start = refl }) sample-IsSample (omega arith)

filter-encode_pair_example : iec61850_filter list_load layout settings (bytes pair) ≢ some true
filter-encode_pair_example =
    filter-encode_pair list_load-IsLoad layout-IsEthernet settings dst src kind start sample sample
      [] (record { dst = refl; src = refl; kind = refl; start = refl }) sample-IsSample
      sample-IsSample (omega arith)

-- The beginning of a frame of many ASDUs.
abbrev long : Packet
long = record {
  dst = dst;
  src = src;
  kind = kind;
  start = start;
  pdu =
      (0x60 ∷ 0x82 ∷ 1 ∷ 60 ∷ 0x80 ∷ 1 ∷ 3 ∷ 0xa2 ∷ 0x82 ∷ 1 ∷ 53 ∷ 0x30 ∷ 95 ∷ 0x80 ∷ [])
      ++ (14 ∷ text);
}

filter-long_example :
    (iec61850_filter list_load layout settings (bytes long) ≡ some true)
    ↔ ((addressed settings long ≡ true) × Matches text 14 text)
filter-long_example =
    filter-long list_load-IsLoad layout-IsEthernet settings long
      (1 ∷ 60 ∷ 0x80 ∷ 1 ∷ 3 ∷ 0xa2 ∷ 0x82 ∷ 1 ∷ 53 ∷ 0x30 ∷ 95 ∷ 0x80 ∷ []) 14 text
      (record { dst = refl; src = refl; kind = refl; start = refl }) (omega arith) refl refl
