-- ===== src/Pipeline/Stop.antt =====
-- `PipelineBuilder::stop` (include/iec_core/pipeline_builder.h), which ends with the joining of
-- the two threads.
use bpf_program.Base.{ℕ, ◌≡◌, ◌⊎◌, inl, inr, refl, true, false}
use bpf_program.Bytes.{ByteOrder}
use bpf_program.Points.{Float}
use bpf_program.Exchange.Blocking.{Place, outside, waiting, passed, move_in, move_out, wake_get}
use bpf_program.Engine.{Arrival}
use bpf_program.Handler.{Fate, goes_on, terminated, broken, IsOn}
use bpf_program.Pipeline.{
  Pipeline, working, joining, joined, hand_in, end_wait_get, take_out, stop_engine, stop_handler,
  raise, lower, join, Step, polls, wakes_set, hands_in, asks, wakes_get, takes_out, stops_engine,
  stops_handler, raises, lowers, joins, Reach, here, next, Reach-append,
}

Fate-cases : {A : Type 0} (r : Fate A) → IsOn r ⊎ (¬ IsOn r)
Fate-cases (goes_on a) = inl tt
Fate-cases terminated = inr (λ e. e)
Fate-cases broken = inr (λ e. e)

Place-cases : (w : Place) → (w ≡ outside) ⊎ ((w ≡ waiting) ⊎ (w ≡ passed))
Place-cases outside = inl refl
Place-cases waiting = inr (inl refl)
Place-cases passed = inr (inr refl)

module _ {F : Type 0} (f : Float F) (order : ByteOrder) (socket : ℕ → Arrival) where
  -- No thread has a step left.
  abbrev pub IsStuck : Pipeline F → Type 0
  IsStuck p = (r : Pipeline F) → ¬ Step f order socket p r

  -- The threads have been told to end.
  abbrev pub IsStopped : Pipeline F → Type 0
  IsStopped p = (p.stage ≡ joining) × (p.engine_running ≡ false) × (p.handler_running ≡ false)

  -- Some order of steps leads behind the joining, or to a round of the handler's that does not go
  -- on, which ends the program.
  pub record Ends (p : Pipeline F) : Type 0 where
    pub final : Pipeline F
    pub reach : Reach f order socket p final
    pub outcome : (final.stage ≡ joined) ⊎ (¬ IsOn final.handler)

  Step-Ends : {p q : Pipeline F} → IsOn p.handler → Step f order socket p q → Ends q → Ends p
  Step-Ends on s e = record {
    final = e.final;
    reach = Reach-append f order socket (next here on s) e.reach;
    outcome = e.outcome;
  }

  join-Ends :
      (p : Pipeline F)
      → IsStopped p
      → p.exchange.writer ≡ outside
      → p.exchange.reader ≡ outside
      → IsOn p.handler
      → Ends p
  unfolding join
  join-Ends p h w r on = record {
    final = join p;
    reach = next here on (joins h.0 h.1 w h.2 r);
    outcome = inl refl;
  }

  take_out-Ends :
      (p : Pipeline F)
      → IsStopped p
      → p.exchange.writer ≡ outside
      → p.exchange.reader ≡ passed
      → IsOn p.handler
      → Ends p
  unfolding take_out move_out
  take_out-Ends p h w r on =
      let q = take_out f order p.buffer p in
      let s = takes_out p.buffer r in
      elim (Fate-cases q.handler) [
        | inl still ↦ Step-Ends on s (join-Ends q h w refl still)
        | inr thrown ↦ record { final = q; reach = next here on s; outcome = inr thrown }
      ]

  -- The writer is through, and what is stored is there for the reader.
  read-Ends :
      (p : Pipeline F)
      → IsStopped p
      → p.exchange.writer ≡ outside
      → p.exchange.is_filled ≡ true
      → IsOn p.handler
      → Ends p
  unfolding end_wait_get wake_get
  read-Ends p h w full on = elim (Place-cases p.exchange.reader) [
    | inl r ↦ join-Ends p h w r on
    | inr (inl r) ↦ Step-Ends on (wakes_get r full) (take_out-Ends (end_wait_get p) h w refl on)
    | inr (inr r) ↦ take_out-Ends p h w r on
  ]

  hand_in-Ends :
      (p : Pipeline F) → IsStopped p → p.exchange.writer ≡ passed → IsOn p.handler → Ends p
  unfolding hand_in move_in
  hand_in-Ends p h w on = Step-Ends on (hands_in w) (read-Ends (hand_in p) h refl refl on)

  waiting-IsStuck :
      (p : Pipeline F)
      → IsStopped p
      → p.exchange.writer ≡ outside
      → p.exchange.reader ≡ waiting
      → p.exchange.is_filled ≡ false
      → IsStuck p
  waiting-IsStuck p h w r e q (polls a b) = cc
  waiting-IsStuck p h w r e q (wakes_set a b) = cc
  waiting-IsStuck p h w r e q (hands_in a) = cc
  waiting-IsStuck p h w r e q (asks a b) = cc
  waiting-IsStuck p h w r e q (wakes_get a b) = cc
  waiting-IsStuck p h w r e q (takes_out left a) = cc
  waiting-IsStuck p h w r e q (stops_engine a) = cc
  waiting-IsStuck p h w r e q (stops_handler a) = cc
  waiting-IsStuck p h w r e q (raises a) = cc
  waiting-IsStuck p h w r e q (lowers a) = cc
  waiting-IsStuck p h w r e q (joins a b c d g) = cc

  -- As `stop` begins to wait for the threads, with the flag down, and the engine does not wait in
  -- `set`, either the pipeline can end, by the joining of both or in a round of the handler's that
  -- does not go on, or the handler waits in `get`, the engine is outside of `set`, and no thread has
  -- a step left.
  pub stop-Ends :
      (p : Pipeline F)
      → IsStopped p
      → p.exchange.is_filled ≡ false
      → ¬ (p.exchange.writer ≡ waiting)
      → IsOn p.handler
      → Ends p ⊎ ((p.exchange.reader ≡ waiting) × (p.exchange.writer ≡ outside) × IsStuck p)
  stop-Ends p h e awake on = elim (Place-cases p.exchange.writer) [
    | inl w ↦ elim (Place-cases p.exchange.reader) [
      | inl r ↦ inl (join-Ends p h w r on)
      | inr (inl r) ↦ inr (r, w, waiting-IsStuck p h w r e)
      | inr (inr r) ↦ inl (take_out-Ends p h w r on)
    ]
    | inr (inl w) ↦ absurd (awake w)
    | inr (inr w) ↦ inl (hand_in-Ends p h w on)
  ]

  -- `stop` called while the handler waits in `get`, and the engine is not in `set`, can come to a
  -- state in which it waits for the threads, and no thread has a step left.
  pub stop-IsStuck :
      (p : Pipeline F)
      → p.stage ≡ working
      → p.exchange.reader ≡ waiting
      → p.exchange.writer ≡ outside
      → IsOn p.handler
      → (q : Pipeline F) × Reach f order socket p q × (q.stage ≡ joining) × IsStuck q
  unfolding stop_engine stop_handler raise lower
  stop-IsStuck p g r w on =
      let q = lower (raise (stop_handler (stop_engine p))) in
      let path =
        next (next (next (next here on (stops_engine g)) on (stops_handler refl)) on (raises refl))
          on (lowers refl) in
      (q, path, refl, waiting-IsStuck q (refl, refl, refl) w r refl)
