-- ===== src/Filter/Frames.antt =====
-- What the program of bpf/ethernet-parse.c does with the frames of the encoder that the parser is
-- held to.
use bpf_program.Base.{
  ℕ, ◌+◌, ◌≤◌, ◌<◌, ◌≡◌, refl, sym, ap, ◌∙◌, ◌↔◌, true, some, List, [], ◌∷◌, ◌++◌, length, take,
  All, arith, length-append, take-append, lt→ltb, le→ltb,
}
use mathlib.Core.List.{append_assoc}
use bpf_program.Parser.Encode.{
  Sample, IsSample, encode_length, encode_cnt, encode_rev, encode_synch, encode_dataset,
  encode_sample, encode_samples, encode_sequence, encode_counted, encode_body,
}
use bpf_program.Parser.Frames.{length-encode_units}
use bpf_program.Filter.{Load, Ethernet, Settings, iec61850_filter}
use bpf_program.Filter.Loads.{IsLoad, IsEthernet}
use bpf_program.Filter.Shapes.{Packet, IsPacket, bytes, addressed, filter-short}

encode_length-short : (n : ℕ) → n < 128 → encode_length n ≡ n ∷ []
encode_length-short n h = rw (lt→ltb n 128 h) refl

pub encode_length-middle : (n : ℕ) → 128 ≤ n → n < 256 → encode_length n ≡ 0x81 ∷ n ∷ []
encode_length-middle n h k = rw (le→ltb n 128 h, lt→ltb n 256 k) refl

pub length-encode_sample :
    (x : Sample) → IsSample x → length (encode_sample x) ≡ 83 + length x.sv_id
length-encode_sample x h = omega (
  arith,
  length-append x.sv_id
      (encode_cnt x.asdu ++ (encode_rev x.asdu ++ (encode_synch x.asdu ++ encode_dataset x.asdu))),
  length-encode_units x.asdu.units,
  h.asdu_range.units_count,
)

-- What stands behind the identifier in an ASDU.
abbrev pub behind : Sample → List ℕ
behind x =
    encode_cnt x.asdu ++ (encode_rev x.asdu ++ (encode_synch x.asdu ++ encode_dataset x.asdu))

-- The samples with the first one opened at its identifier.
pub samples_open :
    (x : Sample) (xs : List Sample) (rest : List ℕ)
    → encode_samples (x ∷ xs) ++ rest
      ≡ 0x30
        ∷ (81 + length x.sv_id)
        ∷ 0x80
        ∷ length x.sv_id
        ∷ (x.sv_id ++ (behind x ++ (encode_samples xs ++ rest)))
samples_open x xs rest =
    ap (λ l. 0x30 ∷ (81 + length x.sv_id) ∷ 0x80 ∷ length x.sv_id ∷ l)
      (append_assoc (x.sv_id ++ behind x) (encode_samples xs) rest
        ∙ append_assoc x.sv_id (behind x) (encode_samples xs ++ rest))

encode_sequence-short :
    (xs : List Sample)
    → length (encode_samples xs) < 128
    → encode_sequence xs ≡ 0xa2 ∷ length (encode_samples xs) ∷ encode_samples xs
encode_sequence-short xs h = rw (encode_length-short (length (encode_samples xs)) h) refl

pub encode_sequence-middle :
    (xs : List Sample)
    → 128 ≤ length (encode_samples xs)
    → length (encode_samples xs) < 256
    → encode_sequence xs ≡ 0xa2 ∷ 0x81 ∷ length (encode_samples xs) ∷ encode_samples xs
encode_sequence-middle xs h k = rw (encode_length-middle (length (encode_samples xs)) h k) refl

encode_body-short :
    (xs : List Sample)
    → length (encode_counted xs) < 128
    → encode_body xs ≡ 0x60 ∷ length (encode_counted xs) ∷ encode_counted xs
encode_body-short xs h = rw (encode_length-short (length (encode_counted xs)) h) refl

pub encode_body-middle :
    (xs : List Sample)
    → 128 ≤ length (encode_counted xs)
    → length (encode_counted xs) < 256
    → encode_body xs ≡ 0x60 ∷ 0x81 ∷ length (encode_counted xs) ∷ encode_counted xs
encode_body-middle xs h k = rw (encode_length-middle (length (encode_counted xs)) h k) refl

-- The body of a frame of one ASDU, down to the length of the identifier.
abbrev pub single_front : Sample → List ℕ
single_front x =
    0x80
    ∷ 1
    ∷ 1
    ∷ 0xa2
    ∷ length (encode_samples (x ∷ []))
    ∷ 0x30
    ∷ (81 + length x.sv_id)
    ∷ 0x80
    ∷ []

length-single : (x : Sample) → IsSample x → length (encode_samples (x ∷ [])) ≡ 83 + length x.sv_id
length-single x h = omega (arith, length-append (encode_sample x) [], length-encode_sample x h)

pub length-counted :
    (xs : List Sample) (m : List ℕ)
    → encode_sequence xs ≡ m
    → length (encode_counted xs) ≡ 3 + length m
length-counted xs m e = omega (arith, ap length e)

pub single_body :
    (x : Sample) (rest : List ℕ)
    → IsSample x
    → encode_body (x ∷ []) ++ rest
      ≡ (0x60 ∷ (88 + length x.sv_id) ∷ single_front x)
        ++ (length x.sv_id ∷ (x.sv_id ++ (behind x ++ rest)))
single_body x rest h =
    let m = length-single x h in
    let sequence = encode_sequence-short (x ∷ []) (omega (arith, m, h.id_most)) in
    let counted : length (encode_counted (x ∷ [])) ≡ 88 + length x.sv_id =
      omega (arith, m, length-counted (x ∷ []) _ sequence) in
    let body = encode_body-short (x ∷ []) (omega (arith, counted, h.id_most)) in
    ap (λ l. l ++ rest) body
    ∙ ap (λ n. 0x60 ∷ n ∷ (encode_counted (x ∷ []) ++ rest)) counted
    ∙ ap (λ l. 0x60 ∷ (88 + length x.sv_id) ∷ 0x80 ∷ 1 ∷ 1 ∷ (l ++ rest)) sequence
    ∙ ap
        (λ l.
          0x60 ∷ (88 + length x.sv_id) ∷ 0x80 ∷ 1 ∷ 1 ∷ 0xa2 ∷ length (encode_samples (x ∷ [])) ∷ l)
        (samples_open x [] rest)

take-same :
    (cs id rest : List ℕ)
    → ((length cs ≡ length id) × (take (length cs) (id ++ rest) ≡ cs)) ↔ (cs ≡ id)
take-same cs id rest = (
  λ h. sym h.1 ∙ ap (λ n. take n (id ++ rest)) h.0 ∙ take-append id rest,
  λ e. rw e (refl, take-append id rest),
)

-- The packet of an encoded frame's body, whatever follows it.
abbrev pub packet : List ℕ → List ℕ → List ℕ → List ℕ → List Sample → List ℕ → Packet
packet dst src kind start xs rest = record {
  dst = dst;
  src = src;
  kind = kind;
  start = start;
  pdu = encode_body xs ++ rest;
}

module _ {load : Load} (is : IsLoad load) {ethernet : Ethernet} (layout : IsEthernet ethernet) where
  -- A frame that the encoder makes of one ASDU is kept exactly if its Ethernet header is the wanted
  -- one and the identifier of its ASDU is the wanted one, which has 7-bit characters.
  pub filter-encode_single :
      (settings : Settings) (dst src kind start : List ℕ) (x : Sample) (rest : List ℕ)
      → IsPacket (packet dst src kind start (x ∷ []) rest)
      → IsSample x
      → All (λ c. c < 128) settings.sv_id
      → (iec61850_filter load ethernet settings (bytes (packet dst src kind start (x ∷ []) rest))
          ≡ some true)
        ↔ ((addressed settings (packet dst src kind start (x ∷ []) rest) ≡ true)
            × (settings.sv_id ≡ x.sv_id))
  filter-encode_single settings dst src kind start x rest shape h ascii =
      let p = packet dst src kind start (x ∷ []) rest in
      let kept =
        filter-short is layout settings p (88 + length x.sv_id) (single_front x) (length x.sv_id)
          (x.sv_id ++ (behind x ++ rest)) shape ascii (omega (arith, h.id_most))
          (λ e. omega (arith, h.id_most, e)) refl (single_body x rest h) in
      let same = take-same settings.sv_id x.sv_id (behind x ++ rest) in
      (λ k. ((kept.0 k).0, same.0 (kept.0 k).1), λ k. kept.1 (k.0, same.1 k.1))
