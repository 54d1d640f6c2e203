-- ===== src/Parser/Encode.antt =====
-- An encoder of IEC 61850-9-2 LE frames, in the layout that the comments at the top of
-- include/iec_core/iec/iec_parser.h give: the specification that the parser is held to.
use bpf_program.Base.{
  ℕ, ◌+◌, ◌^◌, ◌≤◌, ◌<◌, ◌≡◌, List, [], ◌∷◌, ◌++◌, ltb, if◌then◌else◌, length, All,
}
use bpf_program.Base.Int.{of_i32}
use bpf_program.Bytes.{to_be}
use bpf_program.Asdu.{DataUnit, Asdu, IsAsdu}

-- An ASDU with the identifier of its sample values, which the parser passes over.
pub record Sample : Type 0 where
  pub sv_id : List ℕ
  pub asdu : Asdu

pub record Frame : Type 0 where
  pub ether_header : List ℕ
  pub app_id : ℕ
  pub res1 : ℕ
  pub res2 : ℕ
  pub samples : List Sample

pub record IsSample (x : Sample) : Type 0 where
  pub id_least : 10 ≤ length x.sv_id
  pub id_most : length x.sv_id ≤ 34
  pub asdu_range : IsAsdu x.asdu

pub record IsFrame (f : Frame) : Type 0 where
  pub ether_length : length f.ether_header ≡ 14
  pub app_id_range : f.app_id < 2 ^ 16
  pub res1_range : f.res1 < 2 ^ 16
  pub res2_range : f.res2 < 2 ^ 16
  pub least : 1 ≤ length f.samples
  pub most : length f.samples ≤ 16
  pub samples_range : All IsSample f.samples

-- A length in ASN.1 basic encoding, short or long.
abbrev pub encode_length : ℕ → List ℕ
encode_length n =
    if ltb n 128 then n ∷ [] else if ltb n 256 then 0x81 ∷ n ∷ [] else 0x82 ∷ to_be 2 n

abbrev pub encode_unit : DataUnit → List ℕ
encode_unit u = to_be 4 (of_i32 u.inst_mag) ++ (to_be 2 u.quality ++ to_be 2 u.bitset)

abbrev pub encode_units : List DataUnit → List ℕ
encode_units [] = []
encode_units (u ∷ us) = encode_unit u ++ encode_units us

abbrev pub encode_id : List ℕ → List ℕ
encode_id id = 0x30 ∷ (81 + length id) ∷ 0x80 ∷ length id ∷ id

abbrev pub encode_cnt : Asdu → List ℕ
encode_cnt a = 0x82 ∷ 2 ∷ to_be 2 a.smp_cnt

abbrev pub encode_rev : Asdu → List ℕ
encode_rev a = 0x83 ∷ 4 ∷ to_be 4 a.conf_rev

abbrev pub encode_synch : Asdu → List ℕ
encode_synch a = 0x85 ∷ 1 ∷ a.smp_synch ∷ []

abbrev pub encode_dataset : Asdu → List ℕ
encode_dataset a = 0x87 ∷ 64 ∷ encode_units a.units

abbrev pub encode_sample : Sample → List ℕ
encode_sample x =
    encode_id x.sv_id
    ++ (encode_cnt x.asdu ++ (encode_rev x.asdu ++ (encode_synch x.asdu ++ encode_dataset x.asdu)))

abbrev pub encode_samples : List Sample → List ℕ
encode_samples [] = []
encode_samples (x ∷ xs) = encode_sample x ++ encode_samples xs

abbrev pub asdus_of : List Sample → List Asdu
asdus_of [] = []
asdus_of (x ∷ xs) = x.asdu ∷ asdus_of xs

abbrev pub encode_sequence : List Sample → List ℕ
encode_sequence xs = 0xa2 ∷ (encode_length (length (encode_samples xs)) ++ encode_samples xs)

abbrev pub encode_counted : List Sample → List ℕ
encode_counted xs = 0x80 ∷ 1 ∷ length xs ∷ encode_sequence xs

abbrev pub encode_body : List Sample → List ℕ
encode_body xs = 0x60 ∷ (encode_length (length (encode_counted xs)) ++ encode_counted xs)

abbrev pub encode_header : Frame → List ℕ
encode_header f =
    to_be 2 f.app_id
    ++ (to_be 2 (8 + length (encode_body f.samples)) ++ (to_be 2 f.res1 ++ to_be 2 f.res2))

abbrev pub encode_frame : Frame → List ℕ
encode_frame f = f.ether_header ++ (encode_header f ++ encode_body f.samples)

abbrev pub encode_frames : List Frame → List ℕ
encode_frames [] = []
encode_frames (f ∷ fs) = encode_frame f ++ encode_frames fs

abbrev pub frames_asdus : List Frame → List Asdu
frames_asdus [] = []
frames_asdus (f ∷ fs) = asdus_of f.samples ++ frames_asdus fs
