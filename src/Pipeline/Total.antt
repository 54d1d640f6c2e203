-- ===== src/Pipeline/Total.antt =====
-- The pipeline of include/iec_core/pipeline_builder.h, whatever bytes the packets have.
use bpf_program.Base.{
  ℕ, ◌+◌, ◌≤◌, ◌^◌, ◌≡◌, refl, arith, true, Bool-cases, inl, inr, ltb, length, take, length-take-le,
}
use bpf_program.Bytes.{ByteOrder}
use bpf_program.Buffer.{StaticBuffer, size, get_free_size}
use bpf_program.Buffer.Word.{IsBytes}
use bpf_program.Parser.Total.{max_frame}
use bpf_program.Points.{Float}
use bpf_program.Exchange.Blocking.{
  passed, call_get, call_set, wake_get, wake_set, move_in, move_out, passed-filled,
}
use bpf_program.Engine.{Arrival, nothing, packet, read_to, threshold}
use bpf_program.Engine.Delivery.{arrived, append_written-store}
use bpf_program.Engine.Frames.{read_to-IsBytes}
use bpf_program.Handler.{crush}
use bpf_program.Handler.Total.{IsReceived, IsCrusher, Keeps, crush-Keeps, and_on-Keeps}
use bpf_program.Pipeline.{
  Pipeline, Stage, working, engine_stopped, handler_stopped, poll, end_wait_set, hand_in, ask,
  end_wait_get, take_out, stop_engine, stop_handler, raise, lower, join, new_handler, launched,
  Step, polls, wakes_set, hands_in, asks, wakes_get, takes_out, stops_engine, stops_handler, raises,
  lowers, joins, Reach, here, next,
}

-- The array has bytes, the count of those written is within it, and its end is not within a largest
-- frame of the end of the address space.
pub record IsSound (b : StaticBuffer) : Type 0 where
  pub bytes : IsBytes b.bytes
  pub within : b.written ≤ size b
  pub small : size b + max_frame ≤ 2 ^ 64

IsSound-IsReceived : (b : StaticBuffer) → IsSound b → IsReceived b
IsSound-IsReceived b s = record { bytes = s.bytes; small = omega (arith, s.within, s.small) }

read_to-IsSound :
    (a : Arrival) (b : StaticBuffer) → IsBytes (arrived a) → IsSound b → IsSound (read_to a b)
unfolding read_to
read_to-IsSound nothing b h s = s
read_to-IsSound (packet bytes) b h s =
    let got = take (get_free_size b) bytes in
    let fits : b.written + length got ≤ size b =
      omega (arith, s.within, s.small, length-take-le (get_free_size b) bytes) in
    let stored = append_written-store b got fits (omega (arith, s.small)) in
    record {
      bytes = read_to-IsBytes b bytes s.bytes h;
      within = omega (arith, stored.same_size, stored.end, fits);
      small = omega (arith, stored.same_size, s.small);
    }

-- `stop` has not come to `exchange.reset()`.
abbrev pub IsBeforeReset : Stage → Type 0
IsBeforeReset working = Unit
IsBeforeReset engine_stopped = Unit
IsBeforeReset handler_stopped = Unit
IsBeforeReset _ = ⊥

module _ {F : Type 0} (f : Float F) where
  pub record IsSafe (p : Pipeline F) : Type 0 where
    pub own : IsSound p.buffer
    pub stored : p.exchange.is_filled ≡ true → IsReceived p.exchange.storage
    pub readable : p.exchange.reader ≡ passed → p.exchange.is_filled ≡ true
    pub handler : Keeps f (IsCrusher f) p.handler

  poll-IsSafe : (a : Arrival) (p : Pipeline F) → IsBytes (arrived a) → IsSafe p → IsSafe (poll a p)
  unfolding poll call_set
  poll-IsSafe a p h s =
      let b = read_to a p.buffer in
      let own = read_to-IsSound a p.buffer h s.own in
      elim (Bool-cases (ltb (get_free_size b) threshold)) [
        | inl full ↦
            rw full
              (record { own = own; stored = s.stored; readable = s.readable; handler = s.handler })
        | inr free ↦
            rw free
              (record { own = own; stored = s.stored; readable = s.readable; handler = s.handler })
      ]

  take_out-IsSafe :
      (order : ByteOrder) (left : StaticBuffer) (p : Pipeline F)
      → p.exchange.reader ≡ passed
      → IsSafe p
      → IsSafe (take_out f order left p)
  unfolding take_out move_out
  take_out-IsSafe order left p e s =
      let got = s.stored (s.readable e) in
      record {
        own = s.own;
        stored = λ full. absurd (cc);
        readable = λ through. absurd (cc);
        handler =
            and_on-Keeps f p.handler (crush f order p.exchange.storage) s.handler
              (λ c i. crush-Keeps f order p.exchange.storage c got i);
      }

  hand_in-IsSafe : (p : Pipeline F) → IsSafe p → IsSafe (hand_in p)
  unfolding hand_in move_in
  hand_in-IsSafe p s = record {
    own = record { bytes = s.own.bytes; within = omega arith; small = s.own.small };
    stored = λ full. IsSound-IsReceived p.buffer s.own;
    readable = λ through. refl;
    handler = s.handler;
  }

  module _ (order : ByteOrder) (socket : ℕ → Arrival) where
    Step-IsSafe :
        (p q : Pipeline F)
        → ((n : ℕ) → IsBytes (arrived (socket n)))
        → Step f order socket p q
        → IsBeforeReset q.stage
        → (IsBeforeReset p.stage → IsSafe p)
        → IsSafe q
    unfolding poll hand_in take_out end_wait_set ask end_wait_get stop_engine stop_handler raise
        lower join call_get wake_get wake_set
    Step-IsSafe p q h (polls on out) early s = poll-IsSafe (socket p.round) p (h p.round) (s early)
    Step-IsSafe p q h (wakes_set w e) early s =
        let i = s early in
        record { own = i.own; stored = i.stored; readable = i.readable; handler = i.handler }
    Step-IsSafe p q h (hands_in w) early s = hand_in-IsSafe p (s early)
    Step-IsSafe p q h (asks on out) early s =
        let i = s early in
        record {
          own = i.own;
          stored = i.stored;
          readable = passed-filled p.exchange.is_filled;
          handler = i.handler;
        }
    Step-IsSafe p q h (wakes_get w e) early s =
        let i = s early in
        record { own = i.own; stored = i.stored; readable = λ _. e; handler = i.handler }
    Step-IsSafe p q h (takes_out left w) early s = take_out-IsSafe order left p w (s early)
    Step-IsSafe p q h (stops_engine g) early s =
        let i = s (rw g tt) in
        record { own = i.own; stored = i.stored; readable = i.readable; handler = i.handler }
    Step-IsSafe p q h (stops_handler g) early s =
        let i = s (rw g tt) in
        record { own = i.own; stored = i.stored; readable = i.readable; handler = i.handler }
    Step-IsSafe p q h (raises g) early s = absurd early
    Step-IsSafe p q h (lowers g) early s = absurd early
    Step-IsSafe p q h (joins g a b c d) early s = absurd early

    Reach-early :
        (p q : Pipeline F)
        → ((n : ℕ) → IsBytes (arrived (socket n)))
        → Reach f order socket p q
        → IsSafe p
        → IsBeforeReset q.stage
        → IsSafe q
    Reach-early p q h here i early = i
    Reach-early p q h (next {q = m} reach on step) i early =
        Step-IsSafe m q h step early (Reach-early p m h reach i)

    new_handler-IsCrusher : (b : StaticBuffer) → IsCrusher f (new_handler b)
    new_handler-IsCrusher b = record {
      sequence = refl;
      digest = record {
        validator = ground arith;
        points = tt;
        few = omega arith;
        count = omega arith;
      };
    }

    -- Whatever bytes the packets have, from an engine's buffer that has bytes and is written within
    -- it, and until `stop` has come to the reset of the exchange: in every order of the steps of
    -- the threads, no parse of a received buffer reads outside of the array or goes on for ever,
    -- the engine's buffer is written within its array, and the handler has thrown or keeps its
    -- members within their types and at most 512 points.
    pub Reach-IsSafe :
        (own stored read : StaticBuffer) {p : Pipeline F}
        → IsSound own
        → ((n : ℕ) → IsBytes (arrived (socket n)))
        → IsBeforeReset p.stage
        → Reach f order socket (launched own stored read) p
        → IsSafe p
    Reach-IsSafe own stored read {p} sound h early reach =
        Reach-early (launched own stored read) p h reach
          (record {
            own = sound;
            stored = λ full. absurd (cc);
            readable = λ through. absurd (cc);
            handler = new_handler-IsCrusher read;
          })
          early
