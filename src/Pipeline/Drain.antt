-- ===== src/Pipeline/Drain.antt =====
-- The pipeline of include/iec_core/pipeline_builder.h keeps nothing back but what is in the
-- engine's buffer.
use mathlib.Core.Path.{subst}
use mathlib.Core.List.{append-nil}
use bpf_program.Base.{
  ℕ, ◌≡◌, inl, inr, refl, sym, ap, ◌∙◌, true, Bool-cases, Option, List, ◌++◌, All, concat,
}
use bpf_program.Bytes.{ByteOrder}
use bpf_program.Buffer.{StaticBuffer}
use bpf_program.Parser.Encode.{Frame}
use bpf_program.Points.{Float}
use bpf_program.Exchange.Blocking.{
  Place, outside, waiting, passed, Delivers, pending, look_get, call_get, wake_get, move_out,
  Step-Delivers,
}
use bpf_program.Exchange.Blocking as Blocking
use bpf_program.Engine.{Arrival}
use bpf_program.Engine.Frames.{IsPacket, Holds}
use bpf_program.Handler.{IsOn}
use bpf_program.Handler.Refine.{AreFilled}
use bpf_program.Pipeline.{
  Pipeline, working, launched, poll, end_wait_set, hand_in, ask, end_wait_get, take_out,
  stop_engine, stop_handler, raise, lower, join, Step, polls, wakes_set, hands_in, asks, wakes_get,
  takes_out, stops_engine, stops_handler, raises, lowers, joins, Reach, here, next, Reach-append,
}
use bpf_program.Pipeline.Packing.{found}
use bpf_program.Pipeline.Works.{came, socket, IsEmpty, Reach-Works}

module _ {F : Type 0} (f : Float F) (order : ByteOrder) (wire : ℕ → Arrival) where
  -- The handler has got all that was sent, and the engine is as it was.
  pub record Emptied (p : Pipeline F) : Type 0 where
    pub final : Pipeline F
    pub reach : Reach f order wire p final
    pub received_eq : final.exchange.received ≡ p.exchange.sent
    pub buffer_eq : final.buffer ≡ p.buffer

  take_out-Emptied :
      (p : Pipeline F)
      → Delivers p.exchange
      → p.exchange.reader ≡ passed
      → IsOn p.handler
      → Emptied p
  unfolding take_out move_out
  take_out-Emptied p d r on = record {
    final = take_out f order p.buffer p;
    reach = next here on (takes_out p.buffer r);
    received_eq =
        sym (
          d.account ∙ ap (λ t. p.exchange.received ++ pending t p.exchange.storage) (d.readable r));
    buffer_eq = refl;
  }

  Step-Emptied :
      {p q : Pipeline F}
      → IsOn p.handler
      → Step f order wire p q
      → q.exchange.sent ≡ p.exchange.sent
      → q.buffer ≡ p.buffer
      → Emptied q
      → Emptied p
  Step-Emptied on s e b d = record {
    final = d.final;
    reach = Reach-append f order wire (next here on s) d.reach;
    received_eq = d.received_eq ∙ e;
    buffer_eq = d.buffer_eq ∙ b;
  }

  filled-Emptied :
      (w : Place) (p : Pipeline F)
      → p.exchange.reader ≡ w
      → p.exchange.is_filled ≡ true
      → p.handler_running ≡ true
      → Delivers p.exchange
      → IsOn p.handler
      → Emptied p
  unfolding ask end_wait_get call_get wake_get
  filled-Emptied outside p r full runs d on =
      Step-Emptied on (asks runs r) refl refl
        (take_out-Emptied (ask p) (Step-Delivers (Blocking.calls_get r) d) (ap look_get full) on)
  filled-Emptied waiting p r full runs d on =
      Step-Emptied on (wakes_get r full) refl refl
        (take_out-Emptied (end_wait_get p) (Step-Delivers (Blocking.wakes_get r full) d) refl on)
  filled-Emptied passed p r full runs d on = take_out-Emptied p d r on

  Delivers-Emptied :
      (p : Pipeline F) → Delivers p.exchange → p.handler_running ≡ true → IsOn p.handler → Emptied p
  Delivers-Emptied p d runs on = elim (Bool-cases p.exchange.is_filled) [
    | inl full ↦ filled-Emptied p.exchange.reader p refl full runs d on
    | inr empty ↦ record {
      final = p;
      reach = here;
      received_eq = sym (
          d.account
          ∙ ap (λ t. p.exchange.received ++ pending t p.exchange.storage) empty
          ∙ append-nil p.exchange.received);
      buffer_eq = refl;
    }
  ]

module _ {F : Type 0} (f : Float F) (order : ByteOrder) (network : ℕ → Option Frame) where
  Reach-running :
      {own stored read : StaticBuffer} {p : Pipeline F}
      → p.stage ≡ working
      → Reach f order (socket network) (launched own stored read) p
      → p.handler_running ≡ true
  unfolding poll end_wait_set hand_in ask end_wait_get take_out stop_engine stop_handler raise lower
      join
  Reach-running g here = refl
  Reach-running g (next r on (polls a w)) = Reach-running g r
  Reach-running g (next r on (wakes_set w e)) = Reach-running g r
  Reach-running g (next r on (hands_in w)) = Reach-running g r
  Reach-running g (next r on (asks a w)) = Reach-running g r
  Reach-running g (next r on (wakes_get w e)) = Reach-running g r
  Reach-running g (next r on (takes_out left w)) = Reach-running g r
  Reach-running g (next r on (stops_engine w)) = cc
  Reach-running g (next r on (stops_handler w)) = cc
  Reach-running g (next r on (raises w)) = cc
  Reach-running g (next r on (lowers w)) = cc
  Reach-running g (next r on (joins a b c d e)) = cc

  -- Some steps lead to a state in which the handler has been given all frames that have come, but
  -- for those in the engine's buffer.
  pub record Drains (p : Pipeline F) : Type 0 where
    pub final : Pipeline F
    pub reach : Reach f order (socket network) p final
    pub groups : List (List Frame)
    pub last : List Frame
    pub account : came network p.round ≡ concat groups ++ last
    pub received_eq : AreFilled groups final.exchange.received
    pub current : Holds last final.buffer

  -- What comes in each round is nothing or an encoded frame of fewer than 800 bytes, the engine's
  -- buffer starts empty with room for a packet, `stop` has not been called, and the handler has not
  -- thrown: then some steps lead to a state in which the handler has been given all frames that
  -- had come, in order, but for the last ones, which are in the engine's buffer.
  pub Reach-Drains :
      (own stored read : StaticBuffer) {p : Pipeline F}
      → IsEmpty own
      → ((n : ℕ) → All IsPacket (found (network n)))
      → p.stage ≡ working
      → IsOn p.handler
      → Reach f order (socket network) (launched own stored read) p
      → Drains p
  Reach-Drains own stored read {p} empty packets g on r =
      let w = Reach-Works f order network own stored read empty packets g r in
      let e = Delivers-Emptied f order (socket network) p w.delivers (Reach-running g r) on in
      record {
        final = e.final;
        reach = e.reach;
        groups = w.packed.groups;
        last = w.packed.last;
        account = w.packed.account;
        received_eq = subst (AreFilled w.packed.groups) (sym e.received_eq) w.packed.sent_eq;
        current = subst (Holds w.packed.last) (sym e.buffer_eq) w.packed.current;
      }
