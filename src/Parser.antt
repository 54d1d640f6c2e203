-- ===== src/Parser.antt =====
-- The functions of `iec::IecParser` (include/iec_core/iec/iec_parser.h) that read a frame. Each
-- returns `done` where the source returns `true` and `rejected` where it returns `false`.
pub mod State
pub mod Moves
pub mod Reads
pub mod Bounds
pub mod Pdu
pub mod Total
pub mod Encode
pub mod Consumes
pub mod RoundTrip
pub mod Frames
pub mod ParseEncode
pub mod Decode
pub mod Accepts
pub mod Fields
pub mod Asdus
pub mod Lengths
pub mod Grammar
pub mod Complete
pub mod Accepted
pub mod Tests
use bpf_program.Base.{
  ℕ, zero, suc, ◌+◌, ◌-◌, ◌*◌, ◌%◌, ◌^◌, bit_and, Bool, true, false, not, ◌||◌, List, [], ◌∷◌, ltb,
  leb, ◌==◌, if◌then◌else◌,
}
use bpf_program.Base.Int.{to_i32}
use bpf_program.Bytes.{ByteOrder}
use bpf_program.Buffer.{sub_size, read_u8, read_u16, read_u32}
use bpf_program.Asdu.{
  PduHeader, DataUnit, Asdu, units_per_asdu, sizeof_pdu_header, sizeof_data_unit,
  sizeof_ether_header,
}
use State.{
  ParserState, Outcome, done, rejected, fault, M, ◌>>=◌, ◌>>◌, return, require, sub_u8, shrink,
  set_frame_length, skip, pass, push_back, reading,
}

-- How `parse` ends; `out_of_fuel` stands for a loop that runs on.
pub data Run (A : Type 0) : Type 0 where
  finished : A → Run A
  faulted out_of_fuel : Run A

-- The loop of `parse` goes on whatever `parsePDU` returns.
abbrev pub next_round : {A : Type 0} → (ParserState → Run ParserState) → Outcome A → Run ParserState
next_round rest (done _ s) = rest s
next_round rest (rejected s) = rest s
next_round rest fault = faulted

-- The vector that is moved out leaves an empty one behind.
abbrev pub move_sequence : Run ParserState → Run (List Asdu × ParserState)
move_sequence (finished s) = finished (s.sequence, record s { sequence = [] })
move_sequence faulted = faulted
move_sequence out_of_fuel = out_of_fuel

-- `verify`: the length is passed as a `u16`.
unfoldable pub verify : ℕ → M (Unit {0})
verify length s = require (s.frame_length == length % 2 ^ 16) s

-- What `asduLength` is in the end, if it is `n` behind the sample value identifier.
abbrev pub asdu_rest : ℕ → ℕ
asdu_rest n =
    let after_cnt = sub_u8 n (1 + 1 + 2) in
    let after_rev = sub_u8 after_cnt (1 + 1 + 4) in
    let after_synch = sub_u8 after_rev (1 + 1 + 1) in
    let after_tag = sub_u8 after_synch (1 + 1) in
    sub_u8 after_tag (sizeof_data_unit * units_per_asdu)

module _ (order : ByteOrder) where
  -- `buffer.readU8()` and `--internalFrameLength`
  unfoldable pub read_byte : M ℕ
  read_byte = do x ← reading (read_u8 order); shrink 1; return x

  -- A byte that has to have one value.
  unfoldable pub expect : ℕ → M (Unit {0})
  expect wanted = do x ← read_byte; require (x == wanted)

  -- `buffer.readU16()` and `internalFrameLength -= 2`, and the same with four bytes
  unfoldable pub read_word : M ℕ
  read_word = do x ← reading (read_u16 order); shrink 2; return x

  unfoldable pub read_dword : M ℕ
  read_dword = do x ← reading (read_u32 order); shrink 4; return x

  -- The loop of `parseAsnLength`, at `asnLength` and `length`.
  unfoldable pub asn_bytes : ℕ → ℕ → M ℕ
  asn_bytes zero length = return length
  asn_bytes (suc left) length = do
    x ← read_byte
    let total = (length + x) % 2 ^ 32
    asn_bytes left (if ltb 0 left then (total * 2 ^ 8) % 2 ^ 32 else total)

  unfoldable pub parse_asn_length : M ℕ
  parse_asn_length = do
    first ← read_byte
    let asn_length = bit_and first 0x7f
    if bit_and first 0x80 == 0
        then return first
        else if ltb 4 asn_length
        then return 0
        else asn_bytes asn_length 0

  unfoldable pub parse_data_unit : M DataUnit
  parse_data_unit = do
    mag ← read_dword
    quality ← read_word
    bitset ← read_word
    return (record { inst_mag = to_i32 mag; quality = quality; bitset = bitset })

  -- The loop over the units of an ASDU.
  unfoldable pub parse_data_units : ℕ → M (List DataUnit)
  parse_data_units zero = return []
  parse_data_units (suc n) = do
    unit ← parse_data_unit
    units ← parse_data_units n
    return (unit ∷ units)

  -- The parts of `parseASDU`. A part returns `asduLength` as it leaves it.
  unfoldable pub parse_sv_id : M ℕ
  parse_sv_id = do
    expect 0x30
    asdu_length ← read_byte
    require (not (ltb asdu_length 91 || ltb 115 asdu_length))
    expect 0x80
    sv_id_length ← read_byte
    require (not (ltb sv_id_length 10 || ltb 34 sv_id_length))
    pass sv_id_length
    return (sub_u8 asdu_length (1 + 1 + sv_id_length))

  unfoldable pub parse_smp_cnt : M ℕ
  parse_smp_cnt = do expect 0x82; expect 2; read_word

  unfoldable pub parse_conf_rev : M ℕ
  parse_conf_rev = do expect 0x83; expect 4; read_dword

  unfoldable pub parse_smp_synch : M ℕ
  parse_smp_synch = do expect 0x85; expect 1; read_byte

  unfoldable pub parse_dataset : M (List DataUnit)
  parse_dataset = do
    expect 0x87
    expect (sizeof_data_unit * units_per_asdu)
    parse_data_units units_per_asdu

  -- The ASDU is in the sequence before its length is checked.
  unfoldable pub parse_asdu : M (Unit {0})
  parse_asdu = do
    after_id ← parse_sv_id
    cnt ← parse_smp_cnt
    rev ← parse_conf_rev
    synch ← parse_smp_synch
    units ← parse_dataset
    push_back (record { smp_cnt = cnt; smp_synch = synch; conf_rev = rev; units = units })
    require (asdu_rest after_id == 0)

  -- The loop of `parseSequence`.
  unfoldable pub parse_asdus : ℕ → M (Unit {0})
  parse_asdus zero = return tt
  parse_asdus (suc n) = do parse_asdu; parse_asdus n

  unfoldable pub parse_sequence : ℕ → M (Unit {0})
  parse_sequence seq_count = do
    expect 0xa2
    length ← parse_asn_length
    verify length
    parse_asdus seq_count
    verify 0

  unfoldable pub read_header : M PduHeader
  read_header = do
    app_id ← reading (read_u16 order)
    length ← reading (read_u16 order)
    res1 ← reading (read_u16 order)
    res2 ← reading (read_u16 order)
    return (record { app_id = app_id; length = length; res1 = res1; res2 = res2 })

  -- `parsePDU` behind the reading of the header.
  unfoldable pub parse_body : M (Unit {0})
  parse_body = do
    expect 0x60
    length ← parse_asn_length
    verify length
    expect 0x80
    expect 1
    seq_count ← read_byte
    require (not (ltb 16 seq_count || ltb seq_count 1))
    parse_sequence seq_count

  unfoldable pub parse_pdu : M (Unit {0})
  parse_pdu = do
    head ← read_header
    require (not (leb head.length 0))
    set_frame_length (sub_size head.length sizeof_pdu_header % 2 ^ 16)
    parse_body

  -- The loop of `parse`.
  unfoldable pub parse_frames : ℕ → ParserState → Run ParserState
  parse_frames zero s = out_of_fuel
  parse_frames (suc fuel) s = elim (ltb s.buffer.offset s.buffer.written) [
    | false ↦ finished s
    | true ↦ next_round (parse_frames fuel) ((skip sizeof_ether_header >> parse_pdu) s)
  ]

  -- Each round moves the offset on, so that the bytes left are rounds enough.
  unfoldable pub parse : ParserState → Run (List Asdu × ParserState)
  parse s = move_sequence (parse_frames (suc (s.buffer.written - s.buffer.offset)) s)
