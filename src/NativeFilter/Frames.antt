-- ===== src/NativeFilter/Frames.antt =====
-- What the filter of benchmarks/common_benchmark/bench_bpf.cpp does with encoded frames.
use mathlib.Core.List.{append_assoc}
use mathlib.Core.Path.{subst}
use bpf_program.Base.{
  true_and, ℕ, ◌+◌, ◌<◌, ◌≡◌, ◌↔◌, refl, sym, ap, ◌∙◌, arith, true, false, Bool-cases, inl, inr,
  ◌&&◌, ◌||◌, not, some, List, [], ◌∷◌, ◌++◌, ltb, leb, ◌==◌, length, All, length-append,
}
use bpf_program.Bytes.{of_be, little_endian, load}
use bpf_program.Buffer.{bytes_from, sub_size}
use bpf_program.Buffer.Word.{IsBytes}
use bpf_program.Parser.Encode.{Sample, IsSample, encode_body}
use bpf_program.Filter.Shapes.{IsPacket, bytes, before}
use bpf_program.Filter.{Load, Ethernet, Settings, iec61850_filter}
use bpf_program.Filter.Loads.{IsLoad, IsEthernet}
use bpf_program.Filter.Frames.{
  filter-encode_single, length-encode_sample, packet, single_body, single_front, behind,
}
use bpf_program.NativeFilter.{
  sv_type1, sv_type2, name_80, swapped, same_name, by_size, by_type, native_filter,
}
use bpf_program.NativeFilter.Names.{
  bytes_from-at, get_elem?-at, if_some, same_name-at, swapped-of_le,
}

-- The bytes of an encoded frame, opened at the identifier.
module _ (dst src kind start : List ℕ) (x : Sample) (rest : List ℕ) where
  abbrev whole : List ℕ
  whole = bytes (packet dst src kind start (x ∷ []) rest)

  abbrev front : List ℕ
  front =
      before (packet dst src kind start (x ∷ []) rest)
      ++ (0x60 ∷ (88 + length x.sv_id) ∷ single_front x)

  whole-front : IsSample x → whole ≡ front ++ (length x.sv_id ∷ (x.sv_id ++ (behind x ++ rest)))
  whole-front h =
      ap (λ l. before (packet dst src kind start (x ∷ []) rest) ++ l) (single_body x rest h)
      ∙ sym (
          append_assoc (before (packet dst src kind start (x ∷ []) rest))
            (0x60 ∷ (88 + length x.sv_id) ∷ single_front x)
            (length x.sv_id ∷ (x.sv_id ++ (behind x ++ rest))))

  module _ (shape : IsPacket (packet dst src kind start (x ∷ []) rest)) where
    length-front : length front ≡ 32
    length-front = omega (
      arith,
      length-append (before (packet dst src kind start (x ∷ []) rest))
          (0x60 ∷ (88 + length x.sv_id) ∷ single_front x),
      length-append dst (src ++ (kind ++ start)),
      length-append src (kind ++ start),
      length-append kind start,
      shape.dst,
      shape.src,
      shape.kind,
      shape.start,
    )

    bytes_from-kind : bytes_from whole 12 2 ≡ some kind
    bytes_from-kind =
        bytes_from-at (dst ++ src) kind (start ++ (encode_body (x ∷ []) ++ rest)) 12 2
          (simp (append_assoc)) (omega (arith, length-append dst src, shape.dst, shape.src))
          shape.kind

    same_name-front :
        (name : List ℕ)
        → IsSample x
        → All (λ c. 0 < c) x.sv_id
        → 0 < length name
        → length name < 34
        → (same_name name whole 32 ≡ some true) ↔ (x.sv_id ≡ name)
    same_name-front name h chars least most =
        let tail = x.sv_id ++ (behind x ++ rest) in
        let at_length = get_elem?-at front (length x.sv_id) tail 32 (whole-front h) length-front in
        let at_id =
          bytes_from-at (front ++ (length x.sv_id ∷ [])) x.sv_id (behind x ++ rest) 33
            (length x.sv_id) (whole-front h ∙ sym (append_assoc front (length x.sv_id ∷ []) tail))
            (omega (arith, length-front, length-append front (length x.sv_id ∷ []))) refl in
        same_name-at name whole 32 x.sv_id at_length at_id chars least most

    by_size-front :
        (n : ℕ)
        → IsSample x
        → All (λ c. 0 < c) x.sv_id
        → n ≡ 98 + length x.sv_id
        → (by_size whole n ≡ some true) ↔ (x.sv_id ≡ name_80)
    unfolding by_size
    by_size-front n h chars e =
        let same = same_name-front name_80 h chars (omega arith) (omega arith) in
        elim (Bool-cases (leb 0x70 n && leb n 0x100)) [
          | inl within ↦ rw within same
          | inr without ↦
              let other : (leb 0x30b n && leb n 0x500) ≡ false = ground (arith, e, h.id_most) in
              rw (without, other)
                (λ q. absurd (cc), λ q. absurd (ground (arith, without, e, h.id_most, ap length q)))
        ]

length-encode_body : (x : Sample) → IsSample x → length (encode_body (x ∷ [])) ≡ 90 + length x.sv_id
length-encode_body x h = omega (
  arith,
  ap length (single_body x [] h),
  length-append (encode_body (x ∷ [])) [],
  length-append x.sv_id (behind x ++ []),
  length-append (behind x) [],
  length-append x.sv_id (behind x),
  length-encode_sample x h,
)

swapped-kind :
    (kind : List ℕ)
    → length kind ≡ 2
    → IsBytes kind
    → swapped (load little_endian kind) ≡ of_be kind
swapped-kind (a ∷ b ∷ []) e (h, (k, _)) = swapped-of_le a b h k
swapped-kind [] e h = absurd (omega (arith, e))
swapped-kind (a ∷ []) e h = absurd (omega (arith, e))
swapped-kind (a ∷ b ∷ c ∷ ds) e h = absurd (omega (arith, e))

-- The benchmarks' filter, on a little-endian machine, given an encoded frame of one ASDU with
-- whatever follows it in memory, an identifier with no character 0, and its size, accepts it exactly if
-- its type is one of the two and its identifier is ENS80pointMU01.
pub native_filter-encode_single :
    (dst src kind start : List ℕ) (x : Sample) (rest : List ℕ) (size : ℕ)
    → IsPacket (packet dst src kind start (x ∷ []) rest)
    → IsSample x
    → IsBytes kind
    → All (λ c. 0 < c) x.sv_id
    → size ≡ 22 + length (encode_body (x ∷ []))
    → (native_filter little_endian (some (bytes (packet dst src kind start (x ∷ []) rest))) size
        ≡ some true)
      ↔ (((of_be kind == sv_type1 || of_be kind == sv_type2) ≡ true) × (x.sv_id ≡ name_80))
unfolding native_filter by_type
native_filter-encode_single dst src kind start x rest size shape h byte chars e =
    let n : size ≡ 112 + length x.sv_id = omega (arith, e, length-encode_body x h) in
    let some_size : ltb 0 size ≡ true = ground (arith, n) in
    let read = bytes_from-kind dst src kind start x rest shape in
    let kept =
      by_size-front dst src kind start x rest shape (sub_size size 14) h chars
        (omega (arith, n, h.id_most)) in
    rw (some_size, read, swapped-kind kind shape.kind byte)
      (if_some (of_be kind == sv_type1 || of_be kind == sv_type2) kept)

module _ {l : Load} (is : IsLoad l) {ethernet : Ethernet} (layout : IsEthernet ethernet) where
  -- On such a frame, the eBPF program whose wanted identifier is ENS80pointMU01 keeps the packet
  -- exactly if the benchmarks' filter accepts it and its source address is the wanted one and not
  -- the interface's.
  pub iec61850_filter-native_filter :
      (settings : Settings) (dst src kind start : List ℕ) (x : Sample) (rest : List ℕ) (size : ℕ)
      → settings.sv_id ≡ name_80
      → IsPacket (packet dst src kind start (x ∷ []) rest)
      → IsSample x
      → IsBytes kind
      → All (λ c. 0 < c) x.sv_id
      → size ≡ 22 + length (encode_body (x ∷ []))
      → (iec61850_filter l ethernet settings (bytes (packet dst src kind start (x ∷ []) rest))
          ≡ some true)
        ↔ ((native_filter little_endian
                (some (bytes (packet dst src kind start (x ∷ []) rest)))
                size
              ≡ some true)
            × ((not (settings.iface_mac == of_be src) && settings.src_mac == of_be src) ≡ true))
  iec61850_filter-native_filter settings dst src kind start x rest size name shape h byte chars e =
      let ascii : All (λ c. c < 128) settings.sv_id =
        subst (All (λ c. c < 128)) (sym name) (omega arith) in
      let kept = filter-encode_single is layout settings dst src kind start x rest shape h ascii in
      let native =
        native_filter-encode_single dst src kind start x rest size shape h byte chars e in
      let both =
        true_and (of_be kind == sv_type1 || of_be kind == sv_type2)
          (not (settings.iface_mac == of_be src) && settings.src_mac == of_be src) in
      (
        λ k.
            let (typed, addressed) = both.0 (kept.0 k).0 in
            (native.1 (typed, sym (kept.0 k).1 ∙ name), addressed),
        λ k. let (typed, named) = native.0 k.0 in kept.1 (both.1 (typed, k.1), name ∙ sym named),
      )
