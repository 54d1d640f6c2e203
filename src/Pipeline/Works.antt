-- ===== src/Pipeline/Works.antt =====
-- What every step of the pipeline (include/iec_core/pipeline_builder.h) keeps while it works on
-- encoded frames.
use mathlib.Core.Path.{subst}
use bpf_program.Base.{
  ℕ, zero, suc, ◌^◌, ◌≤◌, ◌<◌, ◌≡◌, refl, sym, ap, ◌∙◌, arith, Bool, true, false, Option, List, [],
  ◌∷◌, ◌++◌, ltb, if◌then◌else◌, take, All,
}
use bpf_program.Bytes.{ByteOrder}
use bpf_program.Buffer.{StaticBuffer, size, get_free_size}
use bpf_program.Buffer.Word.{IsBytes}
use bpf_program.Parser.Encode.{Frame}
use bpf_program.Points.{Float}
use bpf_program.Exchange.Blocking.{
  Blocking, Place, outside, waiting, passed, Delivers, look_set, pending, move_in, move_out,
  call_get, call_set, wake_get, wake_set, Step-Delivers, Reach-Delivers,
}
use bpf_program.Exchange.Blocking as Blocking
use bpf_program.Engine.{Arrival, read_to, threshold}
use bpf_program.Engine.Frames.{IsPacket, arrival_of}
use bpf_program.Handler.{NumberCrusher, Fate, goes_on, terminated, broken, and_on, crush, crush_all}
use bpf_program.Pipeline.{
  Pipeline, working, new_handler, launched, poll, end_wait_set, hand_in, ask, end_wait_get,
  take_out, stop_engine, stop_handler, raise, lower, join, Step, polls, wakes_set, hands_in, asks,
  wakes_get, takes_out, stops_engine, stops_handler, raises, lowers, joins, Reach, here, next,
}
use bpf_program.Pipeline.Packing.{found, Packed, wake_set-Packed, hand_in-Packed, poll-Packed}

-- The frames that came in the first rounds.
abbrev pub came : (ℕ → Option Frame) → ℕ → List Frame
came network zero = []
came network (suc n) = came network n ++ found (network n)

-- What the socket gives in each round.
abbrev pub socket : (ℕ → Option Frame) → ℕ → Arrival
socket network n = arrival_of (network n)

-- A buffer as its constructor leaves it, with room for a packet.
pub record IsEmpty (b : StaticBuffer) : Type 0 where
  pub written_eq : b.written ≡ 0
  pub start : b.offset ≡ 0
  pub room : threshold ≤ size b
  pub small : size b < 2 ^ 64
  pub bytes : IsBytes b.bytes

IsEmpty-Packed : (b : StaticBuffer) → IsEmpty b → Packed [] b [] outside
IsEmpty-Packed b h = record {
  groups = [];
  last = [];
  account = refl;
  sent_eq = tt;
  nonempty = tt;
  current = record {
    content_eq = ap (λ n. take n b.bytes) h.written_eq;
    written_eq = h.written_eq;
    start = h.start;
    small = h.small;
    bytes = h.bytes;
    valid = tt;
  };
  ready = omega (arith, h.written_eq, h.room);
}

and_on-goes_on : {A : Type 0} (r : Fate A) → and_on r goes_on ≡ r
and_on-goes_on (goes_on a) = refl
and_on-goes_on terminated = refl
and_on-goes_on broken = refl

and_on-and_on :
    {A B C : Type 0} (r : Fate A) (k : A → Fate B) (l : B → Fate C)
    → and_on r (λ a. and_on (k a) l) ≡ and_on (and_on r k) l
and_on-and_on (goes_on a) k l = refl
and_on-and_on terminated k l = refl
and_on-and_on broken k l = refl

call_set-if :
    (t : Bool) (x : Blocking StaticBuffer)
    → x.writer ≡ outside
    → Delivers x
    → Delivers (if t then call_set x else x) × ((if t then call_set x else x).received ≡ x.received)
unfolding call_set
call_set-if true x w h = (Step-Delivers (Blocking.calls_set w) h, refl)
call_set-if false x w h = (h, refl)

module _ {F : Type 0} (f : Float F) (order : ByteOrder) (network : ℕ → Option Frame) where
  pub record Works (read : StaticBuffer) (p : Pipeline F) : Type 0 where
    pub delivers : Delivers p.exchange
    pub packed : Packed (came network p.round) p.buffer p.exchange.sent p.exchange.writer
    pub handled : p.handler ≡ crush_all f order p.exchange.received (new_handler read)

  crush_all-last :
      (bs : List StaticBuffer) (b : StaticBuffer) (c : NumberCrusher F)
      → crush_all f order (bs ++ (b ∷ [])) c ≡ and_on (crush_all f order bs c) (crush f order b)
  unfolding crush_all
  crush_all-last [] b c = and_on-goes_on (crush f order b c)
  crush_all-last (a ∷ bs) b c =
      ap (and_on (crush f order a c)) (λ i d. crush_all-last bs b d i)
      ∙ and_on-and_on (crush f order a c) (crush_all f order bs) (crush f order b)

  poll-Works :
      (read : StaticBuffer) (p : Pipeline F)
      → ((n : ℕ) → All IsPacket (found (network n)))
      → p.exchange.writer ≡ outside
      → Works read p
      → Works read (poll (socket network p.round) p)
  unfolding poll
  poll-Works read p packets w h =
      let full = ltb (get_free_size (read_to (socket network p.round) p.buffer)) threshold in
      let (delivers, same) = call_set-if full p.exchange w h.delivers in
      record {
        delivers = delivers;
        packed =
            poll-Packed (came network p.round) (network p.round) p (packets p.round) w h.packed;
        handled =
            subst (λ l. p.handler ≡ crush_all f order l (new_handler read)) (sym same) h.handled;
      }

  -- A step that stops nothing keeps what holds.
  Step-Works :
      (read : StaticBuffer) {p q : Pipeline F}
      → ((n : ℕ) → All IsPacket (found (network n)))
      → q.stage ≡ working
      → Step f order (socket network) p q
      → Works read p
      → Works read q
  unfolding end_wait_set hand_in ask end_wait_get take_out move_in move_out call_get wake_get
      wake_set stop_engine stop_handler raise lower join
  Step-Works read packets g (polls r w) h = poll-Works read _ packets w h
  Step-Works read {p} packets g (wakes_set w e) h = record {
    delivers = Step-Delivers (Blocking.wakes_set w e) h.delivers;
    packed = wake_set-Packed (came network p.round) p.buffer p.exchange w h.packed;
    handled = h.handled;
  }
  Step-Works read {p} packets g (hands_in w) h = record {
    delivers = Step-Delivers (Blocking.moves_in p.buffer w) h.delivers;
    packed = hand_in-Packed (came network p.round) p w h.packed;
    handled = h.handled;
  }
  Step-Works read {p} packets g (asks r w) h = record {
    delivers = Step-Delivers (Blocking.calls_get w) h.delivers;
    packed = h.packed;
    handled = h.handled;
  }
  Step-Works read {p} packets g (wakes_get w e) h = record {
    delivers = Step-Delivers (Blocking.wakes_get w e) h.delivers;
    packed = h.packed;
    handled = h.handled;
  }
  Step-Works read {p} packets g (takes_out left w) h = record {
    delivers = Step-Delivers (Blocking.moves_out left w) h.delivers;
    packed = h.packed;
    handled =
        ap (λ r. and_on r (crush f order p.exchange.storage)) h.handled
        ∙ sym (crush_all-last p.exchange.received p.exchange.storage (new_handler read));
  }
  Step-Works read packets g (stops_engine w) h = cc
  Step-Works read packets g (stops_handler w) h = cc
  Step-Works read packets g (raises w) h = cc
  Step-Works read packets g (lowers w) h = cc
  Step-Works read packets g (joins w a b c d) h = cc

  pub Step-working :
      {p q : Pipeline F} → q.stage ≡ working → Step f order (socket network) p q → p.stage ≡ working
  unfolding poll end_wait_set hand_in ask end_wait_get take_out stop_engine stop_handler raise lower
      join
  Step-working g (polls r w) = g
  Step-working g (wakes_set w e) = g
  Step-working g (hands_in w) = g
  Step-working g (asks r w) = g
  Step-working g (wakes_get w e) = g
  Step-working g (takes_out left w) = g
  Step-working g (stops_engine w) = w
  Step-working g (stops_handler w) = cc
  Step-working g (raises w) = cc
  Step-working g (lowers w) = cc
  Step-working g (joins w a b c d) = cc

  pub Reach-Works :
      (own stored read : StaticBuffer) {p : Pipeline F}
      → IsEmpty own
      → ((n : ℕ) → All IsPacket (found (network n)))
      → p.stage ≡ working
      → Reach f order (socket network) (launched own stored read) p
      → Works read p
  unfolding crush_all
  Reach-Works own stored read empty packets g here = record {
    delivers = Reach-Delivers stored Blocking.here;
    packed = IsEmpty-Packed own empty;
    handled = refl;
  }
  Reach-Works own stored read empty packets g (next r on s) =
      Step-Works read packets g s (Reach-Works own stored read empty packets (Step-working g s) r)
