-- ===== src/Parser/Tests.antt =====
-- The theorems on the parser of include/iec_core/iec/iec_parser.h at one frame of one ASDU, whose
-- identifier is "ENS80pointMU01".
use bpf_program.Base.{ℕ, ◌+◌, ◌≤◌, ◌≡◌, refl, arith, List, [], ◌∷◌, ◌++◌, length, All}
use bpf_program.Base.Int.{negsuc}
use bpf_program.Bytes.{to_be, little_endian, big_endian, byteswap16, byteswap32}
use bpf_program.Buffer.{read, bytes_from, read_u8, read_u16, read_u32}
use bpf_program.Asdu.{DataUnit, Asdu, IsAsdu}
use bpf_program.Parser.{
  Run, finished, verify, read_byte, expect, read_word, read_dword, asn_bytes, parse_asn_length,
  parse_data_unit, parse_data_units, parse_sv_id, parse_smp_cnt, parse_conf_rev, parse_smp_synch,
  parse_dataset, parse_asdu, parse_asdus, parse_sequence, read_header, parse_body, parse_pdu,
  parse_frames, parse,
}
use bpf_program.Parser.State.{ParserState, done}
use bpf_program.Parser.Encode.{Frame, encode_counted, encode_frames}
use bpf_program.Parser.Accepted.{IsPdu, parse_pdu-IsPdu}
use bpf_program.Parser.Total.{parse_total}
use bpf_program.Parser.Decode.{parse-encode_frames}

abbrev pub unit : DataUnit
unit = record { inst_mag = negsuc 999; quality = 0; bitset = 0x2000 }

abbrev pub asdu : Asdu
asdu = record {
  smp_cnt = 3999;
  smp_synch = 2;
  conf_rev = 1;
  units = unit ∷ unit ∷ unit ∷ unit ∷ unit ∷ unit ∷ unit ∷ unit ∷ [];
}

abbrev pub id : List ℕ
id =
    b'E' ∷ b'N' ∷ b'S' ∷ b'8' ∷ b'0' ∷ b'p' ∷ b'o' ∷ b'i' ∷ b'n' ∷ b't' ∷ b'M' ∷ b'U' ∷ b'0' ∷ b'1'
    ∷ []

abbrev pub frame : Frame
frame = record {
  ether_header = 1 ∷ 12 ∷ 205 ∷ 4 ∷ 0 ∷ 1 ∷ 12 ∷ 239 ∷ 175 ∷ 48 ∷ 66 ∷ 204 ∷ 136 ∷ 186 ∷ [];
  app_id = 0x4000;
  res1 = 0;
  res2 = 0;
  samples = record { sv_id = id; asdu = asdu } ∷ [];
}

abbrev frames : List Frame
frames = frame ∷ frame ∷ []

abbrev loaded : ParserState
loaded = record {
  buffer = record {
    bytes = encode_frames frames ++ (0 ∷ []);
    offset = 0;
    written = length (encode_frames frames);
  };
  sequence = [];
  frame_length = 0;
}

-- The state with the last byte of the array missing.
abbrev full : ParserState
full = record {
  buffer = record {
    bytes = encode_frames frames;
    offset = 0;
    written = length (encode_frames frames);
  };
  sequence = [];
  frame_length = 0;
}

abbrev asdus_found : Run (List Asdu × ParserState) → List Asdu
asdus_found (finished (out, _)) = out
asdus_found _ = []

parse_run : asdus_found (parse little_endian loaded) ≡ asdu ∷ asdu ∷ []
unfolding parse parse_frames parse_pdu parse_body read_header parse_sequence parse_asdus parse_asdu
    parse_dataset parse_smp_synch parse_conf_rev parse_smp_cnt parse_sv_id parse_data_units
    parse_data_unit parse_asn_length asn_bytes read_dword read_word expect read_byte verify read_u8
    read_u16 read_u32 read bytes_from byteswap16 byteswap32
parse_run = refl

-- The first PDU, and the state behind it.
abbrev at_pdu : ParserState
at_pdu = record loaded { buffer = record loaded.buffer { offset = 14 } }

abbrev behind_pdu : ParserState
behind_pdu = record loaded { buffer = record loaded.buffer { offset = 126 }; sequence = asdu ∷ [] }

pdu_accepted : parse_pdu little_endian at_pdu ≡ done tt behind_pdu
unfolding parse_pdu parse_body read_header parse_sequence parse_asdus parse_asdu parse_dataset
    parse_smp_synch parse_conf_rev parse_smp_cnt parse_sv_id parse_data_units parse_data_unit
    parse_asn_length asn_bytes read_dword read_word expect read_byte verify read_u8 read_u16
    read_u32 read bytes_from byteswap16 byteswap32
pdu_accepted = refl

parse_pdu-IsPdu_example : IsPdu at_pdu 126 (asdu ∷ [])
parse_pdu-IsPdu_example =
    (parse_pdu-IsPdu little_endian at_pdu 126 (asdu ∷ []) (omega arith) (omega arith) (omega arith)
        (omega arith)).0
      (behind_pdu, pdu_accepted, refl, refl)

-- The PDU with its outer length written as 2^16 more than what follows.
abbrev wide_pdu : ParserState
wide_pdu = record {
  buffer = record {
    bytes =
        to_be 2 0x4000
        ++ (to_be 2 (14 + length (encode_counted frame.samples))
            ++ (0
                ∷ 0
                ∷ 0
                ∷ 0
                ∷ 0x60
                ∷ 0x84
                ∷ 0
                ∷ 1
                ∷ 0
                ∷ length (encode_counted frame.samples)
                ∷ (encode_counted frame.samples ++ (0 ∷ []))));
    offset = 0;
    written = 14 + length (encode_counted frame.samples);
  };
  sequence = [];
  frame_length = 0;
}

wide_pdu_accepted :
    parse_pdu little_endian wide_pdu
    ≡ done tt (record wide_pdu {
      buffer = record wide_pdu.buffer { offset = wide_pdu.buffer.written };
      sequence = asdu ∷ [];
    })
unfolding parse_pdu parse_body read_header parse_sequence parse_asdus parse_asdu parse_dataset
    parse_smp_synch parse_conf_rev parse_smp_cnt parse_sv_id parse_data_units parse_data_unit
    parse_asn_length asn_bytes read_dword read_word expect read_byte verify read_u8 read_u16
    read_u32 read bytes_from byteswap16 byteswap32
wide_pdu_accepted = refl

parse-encode_frames_example :
    (s' : ParserState) × (parse big_endian loaded ≡ finished (asdu ∷ asdu ∷ [], s'))
parse-encode_frames_example =
    parse-encode_frames big_endian frames (0 ∷ []) loaded (omega arith) refl refl refl refl
      (omega arith) (omega arith) (omega arith)

parse_total_example :
    (asdus : List Asdu) × (s' : ParserState) × (parse little_endian full ≡ finished (asdus, s'))
    × All IsAsdu asdus
    × (s'.sequence ≡ [])
    × (full.buffer.written ≤ s'.buffer.offset)
    × (s'.buffer.bytes ≡ full.buffer.bytes)
parse_total_example = parse_total little_endian full (omega arith) (omega arith) tt
