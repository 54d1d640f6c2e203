-- ===== src/Engine/Setup.antt =====
-- The members and `setup` of `BPFEngine` (include/iec_core/engines/bpf_engine.h). The printed messages are left out.
pub mod Sockets
pub mod Again
mod Tests
use bpf_program.Base.{ℕ, Bool, true, false, Option, none, some, List, [], ◌∷◌, ◌==◌, if◌then◌else◌}
use bpf_program.Base.Int.{ℤ, pos, negsuc}
use bpf_program.Text.{c_str}
use bpf_program.Kernel.{Kernel, error}
use bpf_program.Executor.{filter_source_code, BpfExecutor, new_executor}
use bpf_program.Executor.Device.{get_device_socket, load}
use bpf_program.Socket as Socket
use bpf_program.Socket.{Socket, set_handle, set_non_blocking_mode}

-- `EngineSettings`
pub record EngineSettings : Type 0 where
  pub iface : List ℕ
  pub source_mac : List ℕ
  pub sv_id : List ℕ

-- The texts that `data()` gives, which are read as far as the first 0.
abbrev pub c_settings : EngineSettings → EngineSettings
c_settings s = record {
  iface = c_str s.iface;
  source_mac = c_str s.source_mac;
  sv_id = c_str s.sv_id;
}

-- The name of the program's function.
abbrev pub function_name : List ℕ
function_name =
    b'i' ∷ b'e' ∷ b'c' ∷ b'6' ∷ b'1' ∷ b'8' ∷ b'5' ∷ b'0' ∷ b'_' ∷ b'f' ∷ b'i' ∷ b'l' ∷ b't' ∷ b'e'
    ∷ b'r' ∷ []

-- The members behind `buffer`, which is in the engine's loop.
pub record BpfEngine : Type 0 where
  pub executor : BpfExecutor
  pub socket : Socket

abbrev pub program_path : List ℕ
program_path =
    b'b' ∷ b'p' ∷ b'f' ∷ b'/' ∷ b'e' ∷ b't' ∷ b'h' ∷ b'e' ∷ b'r' ∷ b'n' ∷ b'e' ∷ b't' ∷ b'-' ∷ b'p'
    ∷ b'a' ∷ b'r' ∷ b's' ∷ b'e' ∷ b'.' ∷ b'c' ∷ []

abbrev pub with_executor : Option BpfExecutor → Option BpfEngine
with_executor none = none
with_executor (some executor) = some (record { executor = executor; socket = Socket.new })

-- The constructor.
unfoldable pub new_engine : (List ℕ → List ℕ) → Option BpfEngine
new_engine content = with_executor (new_executor content program_path)

module _ {W : Type 0} (k : Kernel W) where
  -- Behind `getDeviceSocket`, at its status and `socket_fd`.
  unfoldable pub after_device : BpfEngine → (Bool × ℤ) × W → Bool × BpfEngine × W
  after_device e ((true, pos fd), w) =
      let set = set_handle k (pos fd) (e.socket, w) in
      (true, record e { socket = set.0 }, (set_non_blocking_mode k set.0 set.1).1)
  after_device e ((true, negsuc n), w) = (false, e, w)
  after_device e ((false, fd), w) = (false, e, w)

  -- Behind `load`.
  unfoldable pub after_init : List ℕ → BpfEngine → Bool × W → Bool × BpfEngine × W
  after_init iface e (true, w) = after_device e (get_device_socket k error function_name iface w)
  after_init iface e (false, w) = (false, e, w)

  -- Behind `filterSourceCode`, at the new text of the program.
  unfoldable pub with_source :
      List ℕ → BpfEngine → W → Option (List ℕ) → Option (Bool × BpfEngine × W)
  with_source iface e w none = none
  with_source iface e w (some text) =
      let filtered = record e { executor = record { bpf_prog = text } } in
      some (after_init iface filtered (load k filtered.executor w))

  -- What is returned, with the members; nothing would stand for a loop of the text helpers that
  -- runs on. `read_address` is the files of the interfaces' addresses.
  unfoldable pub setup :
      (List ℕ → List ℕ) → EngineSettings → BpfEngine → W → Option (Bool × BpfEngine × W)
  setup read_address settings e w =
      let read = c_settings settings in
      with_source read.iface e w
        (filter_source_code read_address e.executor.bpf_prog read.iface read.source_mac read.sv_id)
