-- ===== src/Program.antt =====
-- `main` of src/main.cpp, up to where both threads run, and `inputData`.
pub mod Starts
mod Tests
use bpf_program.Base.{ℕ, Bool, true, false, Option, none, some, List, [], ◌∷◌}
use bpf_program.Kernel.{Kernel}
use bpf_program.Buffer.{StaticBuffer}
use bpf_program.Buffer as Buffer
use bpf_program.Points.{Float}
use bpf_program.Socket.{close_socket}
use bpf_program.Engine.Setup.{EngineSettings, BpfEngine, new_engine, setup}
use bpf_program.Pipeline.{Pipeline, launched}

abbrev pub settings : EngineSettings
settings = record {
  iface = b'e' ∷ b'n' ∷ b'p' ∷ b'0' ∷ b's' ∷ b'8' ∷ [];
  source_mac =
      b'0' ∷ b'x' ∷ b'0' ∷ b'c' ∷ b'e' ∷ b'f' ∷ b'a' ∷ b'f' ∷ b'3' ∷ b'0' ∷ b'4' ∷ b'2' ∷ b'c'
      ∷ b'c' ∷ [];
  sv_id =
      b'E' ∷ b'N' ∷ b'S' ∷ b'8' ∷ b'0' ∷ b'p' ∷ b'o' ∷ b'i' ∷ b'n' ∷ b't' ∷ b'M' ∷ b'U' ∷ b'0'
      ∷ b'1' ∷ [];
}

-- `inputData`, where `word` is what `std::cin >>` gives.
abbrev pub input_data : {W : Type 0} → (word : W → List ℕ × W) → W → EngineSettings × W
input_data word w =
    let iface = word w in
    let source_mac = word iface.1 in
    let sv_id = word source_mac.1 in
    (record { iface = iface.0; source_mac = source_mac.0; sv_id = sv_id.0 }, sv_id.1)

abbrev pub buffer_size : ℕ
buffer_size = 8192

-- The arrays of the engine's buffer, the exchange's and the handler's, as they are found.
pub record Arrays : Type 0 where
  pub own : List ℕ
  pub stored : List ℕ
  pub read : List ℕ

-- `main` has returned, or waits for its threads, with the engine's other members.
pub data Outcome (F W : Type 0) : Type 0 where
  returned : W → Outcome F W
  running : Pipeline F → BpfEngine → W → Outcome F W

module _ {F W : Type 0} (k : Kernel W) where
  -- `PipelineBuilder::run` behind the set-up, `wait` as far as it returns, and the destructors.
  unfoldable pub after_setup : Arrays → Option (Bool × BpfEngine × W) → Option (Outcome F W)
  after_setup a none = none
  after_setup a (some (true, e, w)) =
      some (running (launched (Buffer.new a.own) (Buffer.new a.stored) (Buffer.new a.read)) e w)
  after_setup a (some (false, e, w)) = some (returned (close_socket k e.socket w))

  unfoldable pub with_engine :
      (List ℕ → List ℕ) → Arrays → W → Option BpfEngine → Option (Outcome F W)
  with_engine read_address a w none = none
  with_engine read_address a w (some e) = after_setup a (setup k read_address settings e w)

  -- `content` is what the files hold, `read_address` those of the interfaces' addresses.
  unfoldable pub main : (content read_address : List ℕ → List ℕ) → Arrays → W → Option (Outcome F W)
  main content read_address a w = with_engine read_address a w (new_engine content)
