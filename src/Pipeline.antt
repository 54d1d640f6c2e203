-- ===== src/Pipeline.antt =====
-- `PipelineBuilder` (include/iec_core/pipeline_builder.h) as src/main.cpp makes it: the thread of
-- `BPFEngine::run`, the thread of `NumberCrusher::run`, and the one that called the builder,
-- over one `ValueExchangeBlocking`, as steps in any order.
pub mod Packing
pub mod Works
pub mod Checks
pub mod Drain
pub mod Total
pub mod Crash
pub mod Stop
pub mod Tests
use bpf_program.Base.{ℕ, suc, Bool, true, false, ◌≡◌, List, [], ltb, if◌then◌else◌}
use bpf_program.Bytes.{ByteOrder}
use bpf_program.Buffer.{StaticBuffer, get_free_size}
use bpf_program.Buffer as Buffer
use bpf_program.Parser.State.{new_parser}
use bpf_program.Points.{Float}
use bpf_program.Validator as Validator
use bpf_program.Exchange.Blocking.{
  Blocking, outside, waiting, passed, fresh, move_out, move_in, call_get, call_set, wake_get,
  wake_set,
}
use bpf_program.Engine.{Arrival, read_to, threshold}
use bpf_program.Handler.{NumberCrusher, Fate, goes_on, and_on, crush, IsOn}

-- How far the calling thread has come in `stop`: not called, behind `engine.stop()`, behind
-- `handler.stop()`, between the two notifications of `exchange.reset()`, in `wait`, behind it.
pub data Stage : Type 0 where
  working engine_stopped handler_stopped raised joining joined : Stage

-- `buffer` is the engine's, and `round` counts the rounds of its loop.
pub record Pipeline (F : Type 0) : Type 0 where
  pub buffer : StaticBuffer
  pub round : ℕ
  pub exchange : Blocking StaticBuffer
  pub handler : Fate (NumberCrusher F)
  pub engine_running : Bool
  pub handler_running : Bool
  pub stage : Stage

module _ {F : Type 0} where
  -- The default members of a handler, whose parser has this buffer, and the first count.
  abbrev pub new_handler : StaticBuffer → NumberCrusher F
  new_handler b = record {
    parser = new_parser b;
    digest = record { validator = Validator.new; points = []; count = 1; printed = [] };
  }

  -- The threads have been started and have not done anything, where the members' arrays hold
  -- what they hold.
  abbrev pub launched : (own stored read : StaticBuffer) → Pipeline F
  launched own stored read = record {
    buffer = own;
    round = 0;
    exchange = fresh stored;
    handler = goes_on (new_handler read);
    engine_running = true;
    handler_running = true;
    stage = working;
  }

  -- A round of the engine's loop, up to the first test in `set`.
  unfoldable pub poll : Arrival → Pipeline F → Pipeline F
  poll arrival p =
      let b = read_to arrival p.buffer in
      record p {
        buffer = b;
        round = suc p.round;
        exchange = if ltb (get_free_size b) threshold then call_set p.exchange else p.exchange;
      }

  unfoldable pub end_wait_set : Pipeline F → Pipeline F
  end_wait_set p = record p { exchange = wake_set p.exchange }

  -- The rest of `set`, and `buffer.reset()`.
  unfoldable pub hand_in : Pipeline F → Pipeline F
  hand_in p = record p { exchange = move_in p.exchange p.buffer; buffer = Buffer.reset p.buffer }

  -- The handler's loop, up to the first test in `get`.
  unfoldable pub ask : Pipeline F → Pipeline F
  ask p = record p { exchange = call_get p.exchange }

  unfoldable pub end_wait_get : Pipeline F → Pipeline F
  end_wait_get p = record p { exchange = wake_get p.exchange }

  -- The rest of `get` and the rest of the round, which only the handler's own members take part in.
  unfoldable pub take_out : Float F → ByteOrder → StaticBuffer → Pipeline F → Pipeline F
  take_out f order left p = record p {
    exchange = move_out p.exchange left;
    handler = and_on p.handler (crush f order p.exchange.storage);
  }

  unfoldable pub stop_engine : Pipeline F → Pipeline F
  stop_engine p = record p { engine_running = false; stage = engine_stopped }

  unfoldable pub stop_handler : Pipeline F → Pipeline F
  stop_handler p = record p { handler_running = false; stage = handler_stopped }

  -- The halves of `ValueExchangeBlocking::reset`.
  unfoldable pub raise : Pipeline F → Pipeline F
  raise p = record p { exchange = record p.exchange { is_filled = true }; stage = raised }

  unfoldable pub lower : Pipeline F → Pipeline F
  lower p = record p { exchange = record p.exchange { is_filled = false }; stage = joining }

  unfoldable pub join : Pipeline F → Pipeline F
  join p = record p { stage = joined }

-- `socket` says what the socket gives in each round. A thread that finds `running` false at the
-- head of its loop has no further step.
-- A wait can end whenever its predicate holds, by a notification or by a wake-up without one, which
-- a condition variable may have. It need not: the notifications of `reset`, outside of the mutex,
-- can be lost or wake the other thread, and then nothing is there to end the wait.
module _ {F : Type 0} (f : Float F) (order : ByteOrder) (socket : ℕ → Arrival) where
  pub data Step (p : Pipeline F) : Pipeline F → Type 0 where
    polls : p.engine_running ≡ true → p.exchange.writer ≡ outside → Step p (poll (socket p.round) p)
    wakes_set : p.exchange.writer ≡ waiting → p.exchange.is_filled ≡ false → Step p (end_wait_set p)
    hands_in : p.exchange.writer ≡ passed → Step p (hand_in p)
    asks : p.handler_running ≡ true → p.exchange.reader ≡ outside → Step p (ask p)
    wakes_get : p.exchange.reader ≡ waiting → p.exchange.is_filled ≡ true → Step p (end_wait_get p)
    takes_out :
        (left : StaticBuffer) → p.exchange.reader ≡ passed → Step p (take_out f order left p)
    stops_engine : p.stage ≡ working → Step p (stop_engine p)
    stops_handler : p.stage ≡ engine_stopped → Step p (stop_handler p)
    raises : p.stage ≡ handler_stopped → Step p (raise p)
    lowers : p.stage ≡ raised → Step p (lower p)
    joins :
        p.stage ≡ joining
        → p.engine_running ≡ false
        → p.exchange.writer ≡ outside
        → p.handler_running ≡ false
        → p.exchange.reader ≡ outside
        → Step p (join p)

  -- An exception that leaves the handler's thread ends the program.
  pub data Reach (p : Pipeline F) : Pipeline F → Type 0 where
    here : Reach p p
    next : {q r : Pipeline F} → Reach p q → IsOn q.handler → Step q r → Reach p r

  pub Reach-append : {p q r : Pipeline F} → Reach p q → Reach q r → Reach p r
  Reach-append a here = a
  Reach-append a (next b on s) = next (Reach-append a b) on s
