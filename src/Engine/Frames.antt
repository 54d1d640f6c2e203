-- ===== src/Engine/Frames.antt =====
-- What the engine of include/iec_core/engines/bpf_engine.h hands over where the packets are
-- encoded frames: buffers of whole frames, as the handler needs them.
use mathlib.Core.List.{append_assoc, append-nil}
use mathlib.Core.Path.{subst}
use bpf_program.Base.{
  ℕ, ◌+◌, ◌^◌, ◌≤◌, ◌<◌, ◌≡◌, refl, sym, ap, ◌∙◌, arith, Bool-cases, inl, inr, Option, none, some,
  List, [], ◌∷◌, ◌++◌, ltb, length, take, drop, All, All-take, All-drop, map, concat, length-append,
  length-drop, take-drop, concat-append, All-append,
}
use bpf_program.Buffer.{StaticBuffer, size, get_free_size}
use bpf_program.Buffer.Word.{IsBytes}
use bpf_program.Parser.Encode.{Frame, IsFrame, encode_frame, encode_frames}
use bpf_program.Handler.Refine.{IsFilled, AreFilled}
use bpf_program.Handler.Gapless.{IsNonempty}
use bpf_program.Engine.{
  Arrival, nothing, packet, Engine, store, read_to, threshold, hand_over, turn, run,
}
use bpf_program.Engine.Delivery.{content, HasRoom, read_to-Stored}

-- A frame that leaves room in the buffer when it is put where 800 bytes are free.
pub record IsPacket (f : Frame) : Type 0 where
  pub valid : IsFrame f
  pub bytes : IsBytes (encode_frame f)
  pub short : length (encode_frame f) < threshold

-- A look at the socket finds a frame or nothing.
abbrev pub arrival_of : Option Frame → Arrival
arrival_of none = nothing
arrival_of (some f) = packet (encode_frame f)

abbrev pub frames_of : List (Option Frame) → List Frame
frames_of [] = []
frames_of (none ∷ rest) = frames_of rest
frames_of (some f ∷ rest) = f ∷ frames_of rest

-- What was written is encoded frames.
pub record Holds (frames : List Frame) (b : StaticBuffer) : Type 0 where
  pub content_eq : content b ≡ encode_frames frames
  pub written_eq : b.written ≡ length (encode_frames frames)
  pub start : b.offset ≡ 0
  pub small : size b < 2 ^ 64
  pub bytes : IsBytes b.bytes
  pub valid : All IsFrame frames

pub Holds-IsFilled :
    (frames : List Frame) (b : StaticBuffer)
    → Holds frames b
    → b.written < size b
    → IsFilled frames b
Holds-IsFilled frames b h room = record {
  rest = drop b.written b.bytes;
  content = sym (take-drop b.written b.bytes) ∙ ap (λ l. l ++ drop b.written b.bytes) h.content_eq;
  room = omega (arith, room, length-drop b.written b.bytes);
  start = h.start;
  filled = h.written_eq;
  small = h.small;
  bytes = h.bytes;
  valid = h.valid;
}

encode_frames-append :
    (fs gs : List Frame) → encode_frames (fs ++ gs) ≡ encode_frames fs ++ encode_frames gs
encode_frames-append [] gs = refl
encode_frames-append (f ∷ fs) gs =
    ap (λ l. encode_frame f ++ l) (encode_frames-append fs gs)
    ∙ sym (append_assoc (encode_frame f) (encode_frames fs) (encode_frames gs))

encode_frames-last :
    (fs : List Frame) (f : Frame)
    → encode_frames (fs ++ (f ∷ [])) ≡ encode_frames fs ++ encode_frame f
encode_frames-last fs f =
    encode_frames-append fs (f ∷ []) ∙ ap (λ l. encode_frames fs ++ l) (append-nil (encode_frame f))

pub read_to-IsBytes :
    (b : StaticBuffer) (bytes : List ℕ)
    → IsBytes b.bytes
    → IsBytes bytes
    → IsBytes (read_to (packet bytes) b).bytes
unfolding read_to store
read_to-IsBytes b bytes h k =
    let got = take (get_free_size b) bytes in
    All-append _ (take b.written b.bytes) (got ++ drop (b.written + length got) b.bytes)
      (All-take _ b.written b.bytes h)
      (All-append _ got (drop (b.written + length got) b.bytes)
        (All-take _ (get_free_size b) bytes k) (All-drop _ (b.written + length got) b.bytes h))

read_to-offset : (b : StaticBuffer) (bytes : List ℕ) → (read_to (packet bytes) b).offset ≡ b.offset
unfolding read_to store
read_to-offset b bytes = refl

pub read_to-Holds :
    (e : Engine) (frames : List Frame) (f : Frame)
    → HasRoom e
    → IsPacket f
    → Holds frames e.buffer
    → Holds (frames ++ (f ∷ [])) (read_to (packet (encode_frame f)) e.buffer)
      × ((read_to (packet (encode_frame f)) e.buffer).written
          < size (read_to (packet (encode_frame f)) e.buffer))
read_to-Holds e frames f room p h =
    let s = read_to-Stored e (packet (encode_frame f)) room (omega (arith, p.short)) in
    let all = encode_frames-last frames f in
    (
      record {
        content_eq = s.appended ∙ ap (λ l. l ++ encode_frame f) h.content_eq ∙ sym all;
        written_eq =
            s.end
            ∙ ap (λ n. n + length (encode_frame f)) h.written_eq
            ∙ sym (length-append (encode_frames frames) (encode_frame f))
            ∙ ap length (sym all);
        start = read_to-offset e.buffer (encode_frame f) ∙ h.start;
        small = omega (arith, s.same_size, h.small);
        bytes = read_to-IsBytes e.buffer (encode_frame f) h.bytes p.bytes;
        valid = All-append IsFrame frames (f ∷ []) h.valid (p.valid, tt);
      },
      omega (arith, s.end, s.same_size, room.0, p.short),
    )

pub AreFilled-append :
    (groups : List (List Frame)) (bs : List StaticBuffer) {g : List Frame} {b : StaticBuffer}
    → AreFilled groups bs
    → IsFilled g b
    → AreFilled (groups ++ (g ∷ [])) (bs ++ (b ∷ []))
AreFilled-append [] [] h k = (k, tt)
AreFilled-append (g ∷ gs) (b ∷ bs) (h, hs) k = (h, AreFilled-append gs bs hs k)
AreFilled-append [] (b ∷ bs) h k = absurd h
AreFilled-append (g ∷ gs) [] h k = absurd h

-- The engine has handed over the frames in whole groups, but for the last ones, which it holds.
pub record Packs (frames : List Frame) (e : Engine) : Type 0 where
  pub groups : List (List Frame)
  pub last : List Frame
  pub account : frames ≡ concat groups ++ last
  pub handed_eq : AreFilled groups e.handed
  pub nonempty : All IsNonempty groups
  pub current : Holds last e.buffer
  pub room : HasRoom e

pub last-IsNonempty : (fs : List Frame) (f : Frame) → IsNonempty (fs ++ (f ∷ []))
last-IsNonempty [] f = tt
last-IsNonempty (g ∷ gs) f = tt

hand_over-Packs :
    (frames : List Frame) (e : Engine) (b : StaticBuffer) (f : Frame) (p : Packs frames e)
    → Holds (p.last ++ (f ∷ [])) b
    → b.written < size b
    → e.buffer.written + threshold ≤ size b
    → Packs (frames ++ (f ∷ [])) (hand_over (record e { buffer = b }))
unfolding hand_over
hand_over-Packs frames e b f p h below room =
    let last = p.last ++ (f ∷ []) in
    let account : frames ++ (f ∷ []) ≡ concat p.groups ++ last =
      ap (λ l. l ++ (f ∷ [])) p.account ∙ append_assoc (concat p.groups) p.last (f ∷ []) in
    elim (Bool-cases (ltb (get_free_size b) threshold)) [
      | inl full ↦ rw full (record {
        groups = p.groups ++ (last ∷ []);
        last = [];
        account =
            account
            ∙ sym (concat-append p.groups last)
            ∙ sym (append-nil (concat (p.groups ++ (last ∷ []))));
        handed_eq = AreFilled-append p.groups e.handed p.handed_eq (Holds-IsFilled last b h below);
        nonempty =
            All-append IsNonempty p.groups (last ∷ []) p.nonempty (last-IsNonempty p.last f, tt);
        current = record {
          content_eq = refl;
          written_eq = refl;
          start = refl;
          small = h.small;
          bytes = h.bytes;
          valid = tt;
        };
        room = (omega (arith, room), h.small);
      })
      | inr free ↦ rw free (record {
        groups = p.groups;
        last = last;
        account = account;
        handed_eq = p.handed_eq;
        nonempty = p.nonempty;
        current = h;
        room = (ground (arith, free, below, h.small), h.small);
      })
    ]

turn-nothing : (e : Engine) → HasRoom e → turn nothing e ≡ e
unfolding turn read_to hand_over
turn-nothing e room = elim (Bool-cases (ltb (get_free_size e.buffer) threshold)) [
  | inl full ↦ absurd (ground (arith, full, room.0, room.1))
  | inr free ↦ rw free refl
]

turn-Packs :
    (frames : List Frame) (e : Engine) (f : Frame)
    → IsPacket f
    → Packs frames e
    → Packs (frames ++ (f ∷ [])) (turn (packet (encode_frame f)) e)
unfolding turn
turn-Packs frames e f h p =
    let (held, below) = read_to-Holds e p.last f p.room h p.current in
    let s = read_to-Stored e (packet (encode_frame f)) p.room (omega (arith, h.short)) in
    hand_over-Packs frames e (read_to (packet (encode_frame f)) e.buffer) f p held below
      (omega (arith, p.room.0, s.same_size))

-- Where what comes in are encoded frames, each of fewer than 800 bytes, and the frames before
-- were packed so, the engine hands over buffers of whole frames, one at least in each, and the
-- frames in these buffers and in the current one are all those that came in, in order.
pub run-Packs :
    (polls : List (Option Frame)) (frames : List Frame) (e : Engine)
    → All IsPacket (frames_of polls)
    → Packs frames e
    → Packs (frames ++ frames_of polls) (run (map arrival_of polls) e)
unfolding run
run-Packs [] frames e h p = subst (λ l. Packs l e) (sym (append-nil frames)) p
run-Packs (none ∷ rest) frames e h p =
    subst (λ q. Packs (frames ++ frames_of rest) (run (map arrival_of rest) q))
      (sym (turn-nothing e p.room)) (run-Packs rest frames e h p)
run-Packs (some f ∷ rest) frames e h p =
    subst (λ l. Packs l (run (map arrival_of rest) (turn (packet (encode_frame f)) e)))
      (append_assoc frames (f ∷ []) (frames_of rest))
      (run-Packs rest (frames ++ (f ∷ [])) (turn (packet (encode_frame f)) e) h.1
        (turn-Packs frames e f h.0 p))
