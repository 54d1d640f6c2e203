-- ===== src/Pipeline/Packing.antt =====
-- Where the frames are that have come to the engine of the pipeline
-- (include/iec_core/pipeline_builder.h).
use mathlib.Core.List.{append_assoc, append-nil}
use mathlib.Core.Path.{subst}
use bpf_program.Base.{
  ◌+◌, ◌≤◌, ◌<◌, ◌≡◌, refl, sym, ap, ◌∙◌, arith, Bool, true, false, Bool-cases, inl, inr, Option,
  none, some, List, [], ◌∷◌, ◌++◌, ltb, All, All-append, concat, concat-append,
}
use bpf_program.Buffer.{StaticBuffer, size, get_free_size}
use bpf_program.Parser.Encode.{Frame, encode_frame}
use bpf_program.Exchange.Blocking.{
  Blocking, Place, outside, waiting, passed, look_set, move_in, call_set, wake_set,
}
use bpf_program.Engine.{packet, Engine, read_to, threshold}
use bpf_program.Engine.Delivery.{read_to-Stored}
use bpf_program.Engine.Frames.{
  IsPacket, arrival_of, Holds, read_to-Holds, Holds-IsFilled, AreFilled-append, last-IsNonempty,
}
use bpf_program.Handler.Refine.{AreFilled}
use bpf_program.Handler.Gapless.{IsNonempty}
use bpf_program.Pipeline.{Pipeline, poll, hand_in}

abbrev pub found : Option Frame → List Frame
found none = []
found (some f) = f ∷ []

-- Outside of `set` there is room for a packet; inside, the buffer has a frame and is not full.
abbrev pub Ready : Place → List Frame → StaticBuffer → Type 0
Ready outside last b = b.written + threshold ≤ size b
Ready _ last b = IsNonempty last × (b.written < size b) × (threshold ≤ size b)

-- The frames that came are in the buffers sent, in whole groups, and in the engine's buffer.
pub record Packed (frames : List Frame) (b : StaticBuffer) (sent : List StaticBuffer)
    (place : Place) : Type 0 where
  pub groups : List (List Frame)
  pub last : List Frame
  pub account : frames ≡ concat groups ++ last
  pub sent_eq : AreFilled groups sent
  pub nonempty : All IsNonempty groups
  pub current : Holds last b
  pub ready : Ready place last b

Ready-passed :
    (last : List Frame) (b : StaticBuffer) (w : Place)
    → w ≡ waiting
    → Ready w last b
    → Ready passed last b
Ready-passed last b w e h = subst (λ v. Ready v last b) e h

Ready-look_set :
    (full : Bool) (last : List Frame) (b : StaticBuffer)
    → Ready passed last b
    → Ready (look_set full) last b
Ready-look_set true last b h = h
Ready-look_set false last b h = h

pub wake_set-Packed :
    (frames : List Frame) (b : StaticBuffer) (x : Blocking StaticBuffer)
    → x.writer ≡ waiting
    → Packed frames b x.sent x.writer
    → Packed frames b (wake_set x).sent (wake_set x).writer
unfolding wake_set
wake_set-Packed frames b x w h = record {
  groups = h.groups;
  last = h.last;
  account = h.account;
  sent_eq = h.sent_eq;
  nonempty = h.nonempty;
  current = h.current;
  ready = Ready-passed h.last b x.writer w h.ready;
}

module _ {F : Type 0} where
  pub hand_in-Packed :
      (frames : List Frame) (p : Pipeline F)
      → p.exchange.writer ≡ passed
      → Packed frames p.buffer p.exchange.sent p.exchange.writer
      → Packed frames (hand_in p).buffer (hand_in p).exchange.sent (hand_in p).exchange.writer
  unfolding hand_in move_in
  hand_in-Packed frames p w h =
      let ready = subst (λ v. Ready v h.last p.buffer) w h.ready in
      record {
        groups = h.groups ++ (h.last ∷ []);
        last = [];
        account =
            h.account
            ∙ sym (concat-append h.groups h.last)
            ∙ sym (append-nil (concat (h.groups ++ (h.last ∷ []))));
        sent_eq =
            AreFilled-append h.groups p.exchange.sent h.sent_eq
              (Holds-IsFilled h.last p.buffer h.current ready.1);
        nonempty = All-append IsNonempty h.groups (h.last ∷ []) h.nonempty (ready.0, tt);
        current = record {
          content_eq = refl;
          written_eq = refl;
          start = refl;
          small = h.current.small;
          bytes = h.current.bytes;
          valid = tt;
        };
        ready = ready.2;
      }

  poll-nothing :
      (frames : List Frame) (p : Pipeline F)
      → p.exchange.writer ≡ outside
      → Packed frames p.buffer p.exchange.sent p.exchange.writer
      → Packed
          (frames ++ [])
          (poll (arrival_of none) p).buffer
          (poll (arrival_of none) p).exchange.sent
          (poll (arrival_of none) p).exchange.writer
  unfolding poll read_to
  poll-nothing frames p w h =
      let room = subst (λ v. Ready v h.last p.buffer) w h.ready in
      let h' =
        subst (λ l. Packed l p.buffer p.exchange.sent p.exchange.writer) (sym (append-nil frames))
          h in
      elim (Bool-cases (ltb (get_free_size p.buffer) threshold)) [
        | inl full ↦ absurd (ground (arith, full, room, h.current.small))
        | inr free ↦ rw free h'
      ]

  poll-frame :
      (frames : List Frame) (f : Frame) (p : Pipeline F)
      → IsPacket f
      → p.exchange.writer ≡ outside
      → Packed frames p.buffer p.exchange.sent p.exchange.writer
      → Packed
          (frames ++ (f ∷ []))
          (poll (packet (encode_frame f)) p).buffer
          (poll (packet (encode_frame f)) p).exchange.sent
          (poll (packet (encode_frame f)) p).exchange.writer
  unfolding poll call_set
  poll-frame frames f p k w h =
      let room = subst (λ v. Ready v h.last p.buffer) w h.ready in
      let arrival = packet (encode_frame f) in
      let e : Engine = record { buffer = p.buffer; handed = [] } in
      let s = read_to-Stored e arrival (room, h.current.small) (omega (arith, k.short)) in
      let (held, below) = read_to-Holds e h.last f (room, h.current.small) k h.current in
      let b = read_to arrival p.buffer in
      let last = h.last ++ (f ∷ []) in
      let account : frames ++ (f ∷ []) ≡ concat h.groups ++ last =
        ap (λ l. l ++ (f ∷ [])) h.account ∙ append_assoc (concat h.groups) h.last (f ∷ []) in
      elim (Bool-cases (ltb (get_free_size b) threshold)) [
        | inl full ↦ rw full (record {
          groups = h.groups;
          last = last;
          account = account;
          sent_eq = h.sent_eq;
          nonempty = h.nonempty;
          current = held;
          ready =
              Ready-look_set p.exchange.is_filled last b
                (last-IsNonempty h.last f, below, omega (arith, room, s.same_size));
        })
        | inr free ↦ rw free (record {
          groups = h.groups;
          last = last;
          account = account;
          sent_eq = h.sent_eq;
          nonempty = h.nonempty;
          current = held;
          ready = subst (λ v. Ready v last b) (sym w) (ground (arith, free, below, held.small));
        })
      ]

  pub poll-Packed :
      (frames : List Frame) (o : Option Frame) (p : Pipeline F)
      → All IsPacket (found o)
      → p.exchange.writer ≡ outside
      → Packed frames p.buffer p.exchange.sent p.exchange.writer
      → Packed
          (frames ++ found o)
          (poll (arrival_of o) p).buffer
          (poll (arrival_of o) p).exchange.sent
          (poll (arrival_of o) p).exchange.writer
  poll-Packed frames none p k w h = poll-nothing frames p w h
  poll-Packed frames (some f) p k w h = poll-frame frames f p k.0 w h
