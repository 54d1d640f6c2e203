-- ===== src/Socket.antt =====
-- `utils::Socket` of include/iec_core/utils/socket.h and src/iec_core/utils/socket.cpp. Its one
-- member, `sock_fd`, is the state; `readTo` is in the engine, which calls it.
pub mod Ownership
use Prim.Native.Nat.{bit_or}
use bpf_program.Base.{ℕ, Bool, true, false, not}
use bpf_program.Base.Int.{ℤ, pos, negsuc}
use bpf_program.Kernel.{Kernel, is_error, error}

abbrev pub Socket : Type 0
Socket = ℤ

abbrev pub new : Socket
new = error

-- `flags | O_NONBLOCK`, where the one negative value is -1, which has every bit.
abbrev pub with_flag : ℤ → ℕ → ℤ
with_flag (pos flags) x = pos (bit_or flags x)
with_flag (negsuc n) x = negsuc n

module _ {W : Type 0} (k : Kernel W) where
  -- `closeSocket`, which is also the destructor
  unfoldable pub close_socket : Socket → W → W
  close_socket (pos fd) w = k.close fd w
  close_socket (negsuc n) w = w

  unfoldable pub set_handle : ℤ → Socket × W → Socket × W
  set_handle fd (s, w) = (fd, close_socket s w)

  abbrev pub get_handle : Socket → ℤ
  get_handle s = s

  unfoldable pub set_non_blocking_mode : Socket → W → Bool × W
  set_non_blocking_mode s w =
      let got = k.get_status_flags s w in
      let put = k.set_status_flags s (with_flag got.0 k.o_nonblock) got.1 in
      (not (is_error put.0), put.1)
