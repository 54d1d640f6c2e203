-- ===== src/Kernel.antt =====
-- The system calls and the calls of bcc that src/iec_core/engines/bpf_exec.cpp and
-- src/iec_core/utils/socket.cpp make, as operations on an unknown state `W`. A returned `int` is an
-- integer, and a descriptor that was tested not to be negative a natural number.
pub mod Laws
pub mod Tests
use bpf_program.Base.{ℕ, Bool, true, false, List, ◌==◌}
use bpf_program.Base.Int.{ℤ, pos, negsuc}

pub record Kernel (W : Type 0) : Type 0 where
  -- `socket(PF_PACKET, …)`, `setsockopt(…, SO_BINDTODEVICE, …)`, `close`
  pub socket : W → ℤ × W
  pub bind_to_device : ℕ → List ℕ → W → ℤ × W
  pub close : ℕ → W → W
  -- `ioctl` with SIOCGIFFLAGS and SIOCSIFFLAGS, at an interface's name
  pub get_flags : ℕ → List ℕ → W → (ℤ × ℕ) × W
  pub set_flags : ℕ → List ℕ → ℕ → W → ℤ × W
  -- `fcntl` with F_GETFL and F_SETFL
  pub get_status_flags : ℤ → W → ℤ × W
  pub set_status_flags : ℤ → ℤ → W → ℤ × W
  -- `ebpf::BPF::init`, `load_func` and `bpf_attach_socket`; a `StatusTuple` is its `ok()`
  pub init : List ℕ → W → Bool × W
  pub load_func : List ℕ → W → (Bool × ℤ) × W
  pub attach_socket : ℕ → ℤ → W → ℤ × W
  -- IFF_PROMISC and O_NONBLOCK
  pub iff_promisc : ℕ
  pub o_nonblock : ℕ

-- `status < 0` and `status == -1`
abbrev pub is_negative : ℤ → Bool
is_negative (pos n) = false
is_negative (negsuc n) = true

abbrev pub is_error : ℤ → Bool
is_error (pos n) = false
is_error (negsuc n) = n == 0

abbrev pub error : ℤ
error = negsuc 0
