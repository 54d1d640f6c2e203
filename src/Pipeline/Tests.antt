-- ===== src/Pipeline/Tests.antt =====
-- The pipeline of include/iec_core/pipeline_builder.h at one frame: with the buffer of
-- src/main.cpp, and with one of 900 bytes, which it fills.
use bpf_program.Base.{
  ℕ, zero, suc, ◌≡◌, ◌⊎◌, refl, arith, Option, none, some, List, [], ◌∷◌, ltb, All, map, true,
  false,
}
use bpf_program.Base.Int.{ℤ}
use bpf_program.Bytes.{little_endian}
use bpf_program.Buffer.{StaticBuffer, get_free_size}
use bpf_program.Buffer.Word.{IsBytes}
use bpf_program.Parser.Encode.{Frame}
use bpf_program.Parser.Tests.{frame}
use bpf_program.Exchange.Blocking.{outside, waiting, passed, call_get, call_set, move_in}
use bpf_program.Engine.{Engine, run, read_to, threshold}
use bpf_program.Engine.Delivery.{arrived, read_to-Stored}
use bpf_program.Engine.Frames.{IsPacket, arrival_of, Packs, run-Packs}
use bpf_program.Engine.Tests.{zeros, length-zeros, start, start-HasRoom}
use bpf_program.Handler.{IsOn, terminated}
use bpf_program.Processing.Tests.{int_float}
use bpf_program.Pipeline.{
  Pipeline, launched, poll, ask, joining, working, hand_in, take_out, polls, asks, hands_in,
  takes_out, Reach, here, next, stop_engine, stop_handler, raise, lower,
}
use bpf_program.Pipeline.Packing.{found}
use bpf_program.Pipeline.Works.{socket, IsEmpty}
use bpf_program.Pipeline.Checks.{Checks, Reach-Checks}
use bpf_program.Pipeline.Drain.{Drains, Reach-Drains}
use bpf_program.Pipeline.Crash.{stop-Crashes}
use bpf_program.Pipeline.Total.{IsSound, IsSafe, Reach-IsSafe}
use bpf_program.Pipeline.Stop.{IsStopped, IsStuck, Ends, stop-Ends, stop-IsStuck}

pub zeros-IsBytes : (n : ℕ) → IsBytes (zeros n)
unfolding zeros
zeros-IsBytes zero = tt
zeros-IsBytes (suc n) = (omega arith, zeros-IsBytes n)

pub frame-IsPacket : IsPacket frame
frame-IsPacket = record { valid = omega arith; bytes = omega arith; short = omega arith }

abbrev polled : List (Option Frame)
polled = some frame ∷ none ∷ some frame ∷ []

start-Packs : Packs [] start
start-Packs = record {
  groups = [];
  last = [];
  account = refl;
  handed_eq = tt;
  nonempty = tt;
  current = record {
    content_eq = refl;
    written_eq = refl;
    start = refl;
    small = omega (arith, length-zeros 8192);
    bytes = zeros-IsBytes 8192;
    valid = tt;
  };
  room = start-HasRoom;
}

run-Packs_example : Packs (frame ∷ frame ∷ []) (run (map arrival_of polled) start)
run-Packs_example = run-Packs polled [] start (frame-IsPacket, (frame-IsPacket, tt)) start-Packs

abbrev pub own : StaticBuffer
own = record { bytes = zeros 900; offset = 0; written = 0 }

pub own-IsEmpty : IsEmpty own
own-IsEmpty = record {
  written_eq = refl;
  start = refl;
  room = omega (arith, length-zeros 900);
  small = omega (arith, length-zeros 900);
  bytes = zeros-IsBytes 900;
}

abbrev pub begin : Pipeline ℤ
begin = launched own own own

abbrev pub network : ℕ → Option Frame
network zero = some frame
network (suc n) = none

network-IsPacket : (n : ℕ) → All IsPacket (found (network n))
network-IsPacket zero = (frame-IsPacket, tt)
network-IsPacket (suc n) = tt

abbrev pub polled_once : Pipeline ℤ
polled_once = poll (socket network 0) begin

full_now : ltb (get_free_size (read_to (socket network 0) own)) threshold ≡ true
full_now =
    let e : Engine = record { buffer = own; handed = [] } in
    let s =
      read_to-Stored e (socket network 0)
        (omega (arith, length-zeros 900), omega (arith, length-zeros 900)) (omega arith) in
    ground (arith, length-zeros 900, s.same_size, s.end)

abbrev pub taken : Pipeline ℤ
taken = take_out int_float little_endian own (ask (hand_in polled_once))

setting : polled_once.exchange.writer ≡ passed
unfolding poll call_set
setting = rw full_now refl

free_to_ask : (hand_in polled_once).exchange.reader ≡ outside
unfolding poll call_set hand_in move_in
free_to_ask = rw full_now refl

pub taken-Reach : Reach int_float little_endian (socket network) begin taken
unfolding poll ask hand_in call_get move_in
taken-Reach =
    next
      (next (next (next here tt (polls refl refl)) tt (hands_in setting)) tt
        (asks refl free_to_ask))
      tt (takes_out own refl)

pub still_working : taken.stage ≡ working
unfolding poll ask hand_in take_out
still_working = refl

Reach-Checks_example : Checks int_float little_endian network taken
Reach-Checks_example =
    Reach-Checks int_float little_endian network own own own own-IsEmpty network-IsPacket
      still_working taken-Reach

-- The handler waits for a first value.
abbrev idle : Pipeline ℤ
idle = ask begin

idle_waits :
    (idle.stage ≡ working) × (idle.exchange.reader ≡ waiting) × (idle.exchange.writer ≡ outside)
unfolding ask call_get
idle_waits = (refl, refl, refl)

idle-IsOn : IsOn idle.handler
unfolding ask
idle-IsOn = tt

stop-IsStuck_example :
    (q : Pipeline ℤ) × Reach int_float little_endian (socket network) idle q
    × (q.stage ≡ joining)
    × IsStuck int_float little_endian (socket network) q
stop-IsStuck_example =
    stop-IsStuck int_float little_endian (socket network) idle idle_waits.0 idle_waits.1
      idle_waits.2 idle-IsOn

abbrev ending : Pipeline ℤ
ending = lower (raise (stop_handler (stop_engine polled_once)))

ending-IsStopped : IsStopped int_float little_endian (socket network) ending
unfolding lower raise stop_handler stop_engine
ending-IsStopped = (refl, refl, refl)

ending_down : ending.exchange.is_filled ≡ false
unfolding lower
ending_down = refl

passed-waiting : ¬ (passed ≡ waiting)
passed-waiting e = cc

ending_awake : ¬ (ending.exchange.writer ≡ waiting)
unfolding lower raise stop_handler stop_engine poll call_set read_to bpf_program.Engine.store zeros
ending_awake = passed-waiting

ending-IsOn : IsOn ending.handler
unfolding lower raise stop_handler stop_engine poll
ending-IsOn = tt

stop-Ends_example :
    Ends int_float little_endian (socket network) ending
    ⊎ ((ending.exchange.reader ≡ waiting)
        × (ending.exchange.writer ≡ outside)
        × IsStuck int_float little_endian (socket network) ending)
stop-Ends_example =
    stop-Ends int_float little_endian (socket network) ending ending-IsStopped ending_down
      ending_awake ending-IsOn

handed-Reach : Reach int_float little_endian (socket network) begin (hand_in polled_once)
unfolding poll
handed-Reach = next (next here tt (polls refl refl)) tt (hands_in setting)

handed_working : (hand_in polled_once).stage ≡ working
unfolding poll hand_in
handed_working = refl

handed-IsOn : IsOn (hand_in polled_once).handler
unfolding poll hand_in
handed-IsOn = tt

Reach-Drains_example : Drains int_float little_endian network (hand_in polled_once)
Reach-Drains_example =
    Reach-Drains int_float little_endian network own own own own-IsEmpty network-IsPacket
      handed_working handed-IsOn handed-Reach

network-IsBytes : (n : ℕ) → IsBytes (arrived (socket network n))
network-IsBytes zero = omega arith
network-IsBytes (suc n) = tt

own-IsSound : IsSound own
own-IsSound = record {
  bytes = zeros-IsBytes 900;
  within = omega arith;
  small = omega (arith, length-zeros 900);
}

Reach-IsSafe_example : IsSafe int_float taken
Reach-IsSafe_example =
    Reach-IsSafe int_float little_endian (socket network) own own own own-IsSound network-IsBytes
      (rw still_working tt) taken-Reach

idle-Reach : Reach int_float little_endian (socket network) begin idle
idle-Reach = next here tt (asks refl refl)

idle_untouched : idle.exchange.sent ≡ []
unfolding ask call_get
idle_untouched = refl

stop-Crashes_example :
    (q : Pipeline ℤ) × Reach int_float little_endian (socket network) idle q
    × (q.handler ≡ terminated)
stop-Crashes_example =
    stop-Crashes int_float little_endian (socket network) own own own idle (omega arith) idle-Reach
      idle_waits.0 idle_untouched idle_waits.1
