-- ===== src/Filter/Pairs.antt =====
-- What the program of bpf/ethernet-parse.c does with frames of two ASDUs, whose lengths the encoder
-- writes with 0x81 and one byte, a form that include/iec_core/iec/iec_parser.h reads.
use bpf_program.Base.{
  ℕ, suc, ◌+◌, ◌<◌, ◌≡◌, ◌≢◌, refl, ap, ◌∙◌, true, some, List, [], ◌∷◌, ◌++◌, length, take, get_or,
  All, arith, length-append,
}
use bpf_program.Parser.Encode.{
  Sample, IsSample, encode_sample, encode_samples, encode_counted, encode_body,
}
use bpf_program.Filter.{Load, Ethernet, Settings, iec61850_filter}
use bpf_program.Filter.Loads.{IsLoad, IsEthernet}
use bpf_program.Filter.Shapes.{IsPacket, bytes, filter-short}
use bpf_program.Filter.Frames.{
  packet, behind, samples_open, length-encode_sample, encode_sequence-middle, encode_body-middle,
  length-counted,
}

-- The body of a frame of two ASDUs, down to what is taken for the length of the identifier.
abbrev pair_front : Sample → Sample → List ℕ
pair_front x y =
    length (encode_counted (x ∷ y ∷ []))
    ∷ 0x80
    ∷ 1
    ∷ 2
    ∷ 0xa2
    ∷ 0x81
    ∷ length (encode_samples (x ∷ y ∷ []))
    ∷ 0x30
    ∷ []

length-pair :
    (x y : Sample)
    → IsSample x
    → IsSample y
    → length (encode_samples (x ∷ y ∷ [])) ≡ 166 + length x.sv_id + length y.sv_id
length-pair x y h k = omega (
  arith,
  length-append (encode_sample x) (encode_samples (y ∷ [])),
  length-append (encode_sample y) [],
  length-encode_sample x h,
  length-encode_sample y k,
)

pair_body :
    (x y : Sample) (rest : List ℕ)
    → IsSample x
    → IsSample y
    → encode_body (x ∷ y ∷ []) ++ rest
      ≡ (0x60 ∷ 0x81 ∷ pair_front x y)
        ++ ((81 + length x.sv_id)
            ∷ (0x80
                ∷ length x.sv_id
                ∷ (x.sv_id ++ (behind x ++ (encode_samples (y ∷ []) ++ rest)))))
pair_body x y rest h k =
    let m = length-pair x y h k in
    let sequence =
      encode_sequence-middle (x ∷ y ∷ []) (omega (arith, m))
        (omega (arith, m, h.id_most, k.id_most)) in
    let counted : length (encode_counted (x ∷ y ∷ [])) ≡ 172 + length x.sv_id + length y.sv_id =
      omega (arith, m, length-counted (x ∷ y ∷ []) _ sequence) in
    let n = length (encode_counted (x ∷ y ∷ [])) in
    let body =
      encode_body-middle (x ∷ y ∷ []) (omega (arith, counted))
        (omega (arith, counted, h.id_most, k.id_most)) in
    ap (λ l. l ++ rest) body
    ∙ ap (λ l. 0x60 ∷ 0x81 ∷ n ∷ 0x80 ∷ 1 ∷ 2 ∷ (l ++ rest)) sequence
    ∙ ap
        (λ l.
          0x60 ∷ 0x81 ∷ n ∷ 0x80 ∷ 1 ∷ 2 ∷ 0xa2 ∷ 0x81 ∷ length (encode_samples (x ∷ y ∷ [])) ∷ l)
        (samples_open x (y ∷ []) rest)

-- No text of 7-bit characters, of some length, stands where a byte of 0x80 does.
no_match :
    (cs : List ℕ) (n : ℕ) (rest : List ℕ)
    → All (λ c. c < 128) cs
    → length cs ≡ suc n
    → take (length cs) (0x80 ∷ rest) ≡ cs
    → ⊥
no_match [] n rest ascii e t = omega arith
no_match (c ∷ cs) n rest ascii e t =
    let q : 0x80 ≡ c = ap (λ l. get_or l 0 0) t in omega (arith, q, ascii.0)

module _ {load : Load} (is : IsLoad load) {ethernet : Ethernet} (layout : IsEthernet ethernet) where
  -- No frame that the encoder makes of two ASDUs is kept, whatever its addresses and identifiers
  -- are, if the identifier of the settings has 7-bit characters.
  pub filter-encode_pair :
      (settings : Settings) (dst src kind start : List ℕ) (x y : Sample) (rest : List ℕ)
      → IsPacket (packet dst src kind start (x ∷ y ∷ []) rest)
      → IsSample x
      → IsSample y
      → All (λ c. c < 128) settings.sv_id
      → iec61850_filter load ethernet settings (bytes (packet dst src kind start (x ∷ y ∷ []) rest))
        ≢ some true
  filter-encode_pair settings dst src kind start x y rest shape h k ascii kept =
      let p = packet dst src kind start (x ∷ y ∷ []) rest in
      let matched =
        ((filter-short is layout settings p 0x81 (pair_front x y) (81 + length x.sv_id)
            (0x80 ∷ length x.sv_id ∷ (x.sv_id ++ (behind x ++ (encode_samples (y ∷ []) ++ rest))))
            shape ascii (omega arith) (λ e. omega (arith, e)) refl (pair_body x y rest h k)).0
          kept).1 in
      no_match settings.sv_id (80 + length x.sv_id) _ ascii (omega (arith, matched.0)) matched.1
