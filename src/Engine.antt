-- ===== src/Engine.antt =====
-- The loop of `BPFEngine::run` (include/iec_core/engines/bpf_engine.h) over
-- `Socket::readTo` (include/iec_core/utils/socket.h). What the socket gives is a parameter.
pub mod Delivery
pub mod Cuts
pub mod Loses
pub mod Setup
pub mod Frames
pub mod Pcap
mod Native
pub mod Tests
use bpf_program.Base.{ℕ, ◌+◌, List, [], ◌∷◌, ◌++◌, ltb, if◌then◌else◌, length, take, drop}
use bpf_program.Buffer.{StaticBuffer, append_written, get_free_size, reset}

-- One call of `recvfrom`: nothing, or a packet waiting.
pub data Arrival : Type 0 where
  nothing : Arrival
  packet : List ℕ → Arrival

-- `buffer` and what was given to the exchange's `set`, the oldest first.
pub record Engine : Type 0 where
  pub buffer : StaticBuffer
  pub handed : List StaticBuffer

-- `recvfrom` into the free part: of a packet that is longer, the rest is lost.
unfoldable pub store : List ℕ → StaticBuffer → StaticBuffer
store bytes b = record b {
  bytes = take b.written b.bytes ++ (bytes ++ drop (b.written + length bytes) b.bytes);
}

unfoldable pub read_to : Arrival → StaticBuffer → StaticBuffer
read_to nothing b = b
read_to (packet bytes) b =
    let got = take (get_free_size b) bytes in append_written (length got) (store got b)

abbrev pub threshold : ℕ
threshold = 800

-- The hand-over copies the array, since the move of an array of bytes does.
unfoldable pub hand_over : Engine → Engine
hand_over e =
    if ltb (get_free_size e.buffer) threshold
    then record { buffer = reset e.buffer; handed = e.handed ++ (e.buffer ∷ []) }
    else e

unfoldable pub turn : Arrival → Engine → Engine
turn arrival e = hand_over (record e { buffer = read_to arrival e.buffer })

-- The loop, for as many rounds as there are arrivals.
unfoldable pub run : List Arrival → Engine → Engine
run [] e = e
run (arrival ∷ arrivals) e = run arrivals (turn arrival e)
