-- ===== src/Filter.antt =====
-- The eBPF program of bpf/ethernet-parse.c, which the kernel runs on every frame. What bcc and the
-- kernel give it is a parameter: the loads from the packet and the layout of `struct ethernet_t`.
pub mod Loads
pub mod Compare
pub mod Shapes
pub mod Frames
pub mod Pairs
pub mod Tests
use bpf_program.Base.{
  ℕ, ◌+◌, ◌*◌, ◌-◌, ◌^◌, ◌/◌, ◌%◌, Bool, true, false, not, ◌&&◌, ◌||◌, Option, none, some, List, [],
  ◌∷◌, ltb, ◌==◌, if◌then◌else◌, length,
}

-- `load packet offset count` is what a load of `count` bytes gives; without a value, the kernel
-- ends the program, and the frame is dropped.
abbrev pub Load : Type 0
Load = List ℕ → ℕ → ℕ → Option ℕ

-- `struct ethernet_t` of bcc/proto.h: its size and the offsets of `src` and `type`.
pub record Ethernet : Type 0 where
  pub size : ℕ
  pub src : ℕ
  pub kind : ℕ

-- What the executor writes for %IFACE_MAC, %SRC_MAC and %SV_ID.
pub record Settings : Type 0 where
  pub iface_mac : ℕ
  pub src_mac : ℕ
  pub sv_id : List ℕ

abbrev pub iec_proto : ℕ
iec_proto = 0x8100

abbrev pub sv_ethertype : ℕ
sv_ethertype = 0x88ba

abbrev pub sv_pdu_id_80p : ℕ
sv_pdu_id_80p = 0x60

abbrev pub sv_pdu_id_256p : ℕ
sv_pdu_id_256p = 0x6082

-- The sizes of the packed structures.
abbrev pub sizeof_sv_start : ℕ
sizeof_sv_start = 2 + 2 + 2 + 2

abbrev pub sizeof_sav_pdu_80p : ℕ
sizeof_sav_pdu_80p = 1 + 1 + (1 + 1 + 1 + (1 + 1))

abbrev pub sizeof_sav_pdu_256p : ℕ
sizeof_sav_pdu_256p = 2 + 2 + (1 + 1 + 1 + (2 + 2))

abbrev pub sizeof_asdu_start : ℕ
sizeof_asdu_start = 1 + 1 + 1 + 1

-- `pduSize`, or nothing where the frame is dropped.
unfoldable pub pdu_size : ℕ → Option ℕ
pdu_size pdu_id =
    if pdu_id == sv_pdu_id_256p
    then some sizeof_sav_pdu_256p
    else if (pdu_id / 2 ^ 8) % 2 ^ 8 == sv_pdu_id_80p
    then some sizeof_sav_pdu_80p
    else none

-- A `char`, which is signed, in a comparison with a `u64`.
abbrev pub char_value : ℕ → ℕ
char_value c = if ltb c 128 then c else 2 ^ 64 - 2 ^ 8 + c

abbrev pub after : Option ℕ → (ℕ → Option Bool) → Option Bool
after none next = none
after (some x) next = next x

abbrev pub drop_unless : Bool → Option Bool → Option Bool
drop_unless true rest = rest
drop_unless false rest = some false

module _ (load : Load) where
  -- The loop of `SvIdCmp`, at the characters left and the offset of the first.
  unfoldable pub same_from : List ℕ → List ℕ → ℕ → Option Bool
  same_from packet [] offset = some true
  same_from packet (c ∷ cs) offset =
      let rest = same_from packet cs (offset + 1) in
      after (load packet offset 1) (λ x. drop_unless (x == char_value c) rest)

  unfoldable pub sv_id_cmp : List ℕ → List ℕ → ℕ → ℕ → Option Bool
  sv_id_cmp cmp_str packet offset count =
      drop_unless (length cmp_str == count) (same_from packet cmp_str offset)

  -- The end of the program, behind the choice between the layouts.
  unfoldable pub compare_id : List ℕ → List ℕ → ℕ → Option ℕ → Option Bool
  compare_id sv_id packet pdu_id_offset none = some false
  compare_id sv_id packet pdu_id_offset (some size) =
      after (load packet (pdu_id_offset + size + 3) 1)
        (λ count. sv_id_cmp sv_id packet (pdu_id_offset + size + sizeof_asdu_start) count)

  -- `some true` is KEEP, `some false` DROP.
  unfoldable pub iec61850_filter : Ethernet → Settings → List ℕ → Option Bool
  iec61850_filter ethernet settings packet = after (load packet ethernet.src 6) (λ source_mac.
      after (load packet ethernet.kind 2) (λ kind.
        drop_unless (kind == iec_proto || kind == sv_ethertype) (
          drop_unless (not (settings.iface_mac == source_mac)) (
            drop_unless (settings.src_mac == source_mac) (
              after (load packet (ethernet.size + sizeof_sv_start) 2) (λ pdu_id.
                compare_id settings.sv_id packet (ethernet.size + sizeof_sv_start)
                  (pdu_size pdu_id)))))))
