-- ===== src/Capture/Wanted.antt =====
-- The handler of the pipeline gets the frames of one ASDU that the settings of bpf/ethernet-parse.c ask for.
use mathlib.Core.List.{append_assoc, append-nil}
use mathlib.Core.Path.{subst}
use bpf_program.Base.{
  true_and, arith, length-append, ℕ, ◌≤◌, ◌<◌, ◌≡◌, ◌↔◌, refl, sym, ap, ◌∙◌, Bool, true, false,
  Bool-cases, inl, inr, Option, none, some, List, [], ◌∷◌, ◌++◌, length, All, if◌then◌else◌,
}
use bpf_program.Bytes.{ByteOrder}
use bpf_program.Buffer.{StaticBuffer}
use bpf_program.Buffer.Word.{IsBytes}
use bpf_program.Parser.Encode.{
  Sample, IsFrame, encode_length, encode_samples, encode_counted, encode_frame, encode_header,
  encode_body,
}
use bpf_program.Parser.Frames.{encode_samples-le}
use bpf_program.Points.{Float}
use bpf_program.Engine.Frames.{IsPacket}
use bpf_program.Filter.{Load, Ethernet, Settings, iec61850_filter}
use bpf_program.Filter.Loads.{IsLoad, IsEthernet}
use bpf_program.Filter.Shapes.{bytes, addressed}
use bpf_program.Filter.Frames.{packet, filter-encode_single}
use bpf_program.NativeFilter.{same_text}
use bpf_program.NativeFilter.Names.{same_text_iff}
use bpf_program.Pipeline.{working, launched, Pipeline, Reach}
use bpf_program.Pipeline.Packing.{found}
use bpf_program.Pipeline.Works.{socket, IsEmpty}
use bpf_program.Pipeline.Checks.{Checks, Reach-Checks}
use bpf_program.Capture.{Telegram, frame_of, is_kept, captured, is_wanted, wanted}

pub record IsTelegram (t : Telegram) : Type 0 where
  pub dst_length : length t.dst ≡ 6
  pub src_length : length t.src ≡ 6
  pub kind_length : length t.kind ≡ 2
  pub valid : IsFrame (frame_of t)
  pub bytes : IsBytes (encode_frame (frame_of t))

encode_length-le : (n : ℕ) → length (encode_length n) ≤ 3
encode_length-le n = ground arith

-- One ASDU makes a frame of at most 150 bytes.
encode_frame-IsPacket : (t : Telegram) → IsTelegram t → IsPacket (frame_of t)
encode_frame-IsPacket t h =
    let xs : List Sample = t.sample ∷ [] in
    let size = length (encode_samples xs) in
    let counted = length (encode_counted xs) in
    let header = encode_header (frame_of t) in
    record {
      valid = h.valid;
      bytes = h.bytes;
      short = omega (
        arith,
        h.valid.ether_length,
        encode_samples-le xs h.valid.samples_range,
        encode_length-le size,
        encode_length-le counted,
        length-append (encode_length size) (encode_samples xs),
        length-append (encode_length counted) (encode_counted xs),
        length-append (frame_of t).ether_header (header ++ encode_body xs),
        length-append header (encode_body xs),
      );
    }

abbrev pub sent_by : Option Telegram → List Telegram
sent_by none = []
sent_by (some t) = t ∷ []

-- The telegram as the filter sees it.
abbrev start : Telegram → List ℕ
start t = encode_header (frame_of t)

abbrev seen : Telegram → List ℕ
seen t = bytes (packet t.dst t.src t.kind (start t) (t.sample ∷ []) [])

regroup :
    (dst src kind head body : List ℕ)
    → (dst ++ (src ++ kind)) ++ (head ++ body) ≡ (dst ++ (src ++ (kind ++ head))) ++ (body ++ [])
regroup dst src kind head body = simp (append_assoc, append-nil)

encode_frame-seen : (t : Telegram) → encode_frame (frame_of t) ≡ seen t
encode_frame-seen t = regroup t.dst t.src t.kind (start t) (encode_body (t.sample ∷ []))

Bool-iff : (a b : Bool) → (a ≡ true) ↔ (b ≡ true) → a ≡ b
Bool-iff true true h = refl
Bool-iff true false h = sym (h.0 refl)
Bool-iff false true h = h.1 refl
Bool-iff false false h = refl

is_kept_iff : (r : Option Bool) → (is_kept r ≡ true) ↔ (r ≡ some true)
is_kept_iff none = (λ e. cc, λ e. cc)
is_kept_iff (some true) = (λ e. refl, λ e. refl)
is_kept_iff (some false) = (λ e. cc, λ e. cc)

module _ {load : Load} (is : IsLoad load) {ethernet : Ethernet} (layout : IsEthernet ethernet)
    (settings : Settings) (ascii : All (λ c. c < 128) settings.sv_id) where
  is_kept-is_wanted :
      (t : Telegram)
      → IsTelegram t
      → is_kept (iec61850_filter load ethernet settings (encode_frame (frame_of t)))
        ≡ is_wanted settings t
  is_kept-is_wanted t h =
      let kept =
        filter-encode_single is layout settings t.dst t.src t.kind (start t) t.sample []
          (record { dst = h.dst_length; src = h.src_length; kind = h.kind_length; start = refl })
          h.valid.samples_range.0 ascii in
      let verdict = iec61850_filter load ethernet settings (seen t) in
      let both =
        true_and (addressed settings (packet t.dst t.src t.kind (start t) (t.sample ∷ []) []))
          (same_text settings.sv_id t.sample.sv_id) in
      let same = same_text_iff settings.sv_id t.sample.sv_id in
      ap (λ l. is_kept (iec61850_filter load ethernet settings l)) (encode_frame-seen t)
      ∙ Bool-iff (is_kept verdict) (is_wanted settings t) (
        λ e. let k = kept.0 ((is_kept_iff verdict).0 e) in both.1 (k.0, same.1 k.1),
        λ e. let k = both.0 e in (is_kept_iff verdict).1 (kept.1 (k.0, same.0 k.1)),
      )

  captured-wanted :
      (o : Option Telegram)
      → All IsTelegram (sent_by o)
      → captured load ethernet settings o ≡ wanted settings o
  unfolding captured
  captured-wanted none h = refl
  captured-wanted (some t) (h, _) =
      ap (λ b. if b then some (frame_of t) else none) (is_kept-is_wanted t h)

  wanted-IsPacket :
      (o : Option Telegram) → All IsTelegram (sent_by o) → All IsPacket (found (wanted settings o))
  wanted-IsPacket none h = tt
  wanted-IsPacket (some t) (h, _) = elim (Bool-cases (is_wanted settings t)) [
    | inl yes_wanted ↦ rw yes_wanted (encode_frame-IsPacket t h, tt)
    | inr not_wanted ↦ rw not_wanted tt
  ]

  module _ {F : Type 0} (f : Float F) (order : ByteOrder) (wire : ℕ → Option Telegram) where
    -- What is on the wire in each round is nothing or an encoded frame of one ASDU, the wanted
    -- identifier has 7-bit characters, the engine's buffer starts empty with room for a packet, and
    -- `stop` has not been called: then, with the filter in front of the engine and in every order of
    -- the threads' steps, the buffers that the handler received hold, in order, the first of these
    -- frames that the settings ask for by type, addresses and identifier, each once, and no others,
    -- and the handler has not thrown exactly if the sample counts of these go on with no gap. Loads
    -- that give the packet's bytes and the layout of an Ethernet header are presumed.
    pub Reach-Checks-wanted :
        (own stored read : StaticBuffer) {p : Pipeline F}
        → IsEmpty own
        → ((n : ℕ) → All IsTelegram (sent_by (wire n)))
        → p.stage ≡ working
        → Reach f order
            (socket (λ n. captured load ethernet settings (wire n)))
            (launched own stored read)
            p
        → Checks f order (λ n. wanted settings (wire n)) p
    Reach-Checks-wanted own stored read {p} empty telegrams g r =
        Reach-Checks f order (λ n. wanted settings (wire n)) own stored read empty
          (λ n. wanted-IsPacket (wire n) (telegrams n)) g
          (subst (λ net. Reach f order (socket net) (launched own stored read) p)
            (λ i n. captured-wanted (wire n) (telegrams n) i) r)
