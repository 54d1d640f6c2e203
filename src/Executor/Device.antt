-- ===== src/Executor/Device.antt =====
-- `getRawSocket`, `attachRawSocket` and `getDeviceSocket` of src/iec_core/engines/bpf_exec.cpp.
pub mod Sockets
pub mod Flags
mod Tests
use Prim.Native.Nat.{bit_or}
use bpf_program.Base.{ℕ, Bool, true, false, List, [], ◌∷◌, take, if◌then◌else◌, ◌==◌}
use bpf_program.Base.Int.{ℤ, pos, negsuc}
use bpf_program.Text.{c_str}
use bpf_program.Executor.{BpfExecutor, get_source_code}
use bpf_program.Kernel.{Kernel, is_negative, is_error, error}

-- `ethreq.ifr_name`: IF_NAMESIZE - 1 characters at most.
abbrev pub ifr_name : List ℕ → List ℕ
ifr_name name = take 15 (c_str name)

module _ {W : Type 0} (k : Kernel W) where
  abbrev pub load : BpfExecutor → W → Bool × W
  load executor w = k.init (get_source_code executor.bpf_prog) w

  -- `close(sock_fd); return error;`
  unfoldable pub give_up : ℕ → W → ℤ × W
  give_up fd w = (error, k.close fd w)

  -- Behind SIOCSIFFLAGS, SIOCGIFFLAGS, the binding and the opening of the socket.
  unfoldable pub after_set : ℕ → ℤ × W → ℤ × W
  after_set fd (status, w) = if is_error status then give_up fd w else (pos fd, w)

  unfoldable pub after_get : List ℕ → ℕ → (ℤ × ℕ) × W → ℤ × W
  after_get name fd ((status, flags), w) =
      if is_error status
      then give_up fd w
      else after_set fd (k.set_flags fd name (bit_or flags k.iff_promisc) w)

  unfoldable pub after_bind : List ℕ → ℕ → ℤ × W → ℤ × W
  after_bind name fd (status, w) =
      if is_negative status then give_up fd w else after_get name fd (k.get_flags fd name w)

  unfoldable pub after_socket : List ℕ → ℤ × W → ℤ × W
  after_socket name (negsuc n, w) = (error, w)
  after_socket [] (pos fd, w) = after_get [] fd (k.get_flags fd [] w)
  after_socket (c ∷ cs) (pos fd, w) =
      after_bind (ifr_name (c ∷ cs)) fd (k.bind_to_device fd (c ∷ cs) w)

  unfoldable pub get_raw_socket : List ℕ → W → ℤ × W
  get_raw_socket iface_name w = after_socket iface_name (k.socket w)

  -- The status's `ok()` and what the reference `socket` refers to in the end.
  unfoldable pub after_attach : ℕ → ℤ × W → (Bool × ℤ) × W
  after_attach fd (result, w) =
      if is_negative result then ((false, pos fd), k.close fd w) else ((true, pos fd), w)

  unfoldable pub after_raw : ℤ → ℤ × W → (Bool × ℤ) × W
  after_raw function (negsuc n, w) = ((false, negsuc n), w)
  after_raw function (pos fd, w) = after_attach fd (k.attach_socket fd function w)

  unfoldable pub attach_raw_socket : List ℕ → ℤ → W → (Bool × ℤ) × W
  attach_raw_socket iface_name function w = after_raw function (get_raw_socket iface_name w)

  unfoldable pub after_load : List ℕ → ℤ → (Bool × ℤ) × W → (Bool × ℤ) × W
  after_load iface_name sock_fd ((true, function), w) = attach_raw_socket iface_name function w
  after_load iface_name sock_fd ((false, function), w) = ((false, sock_fd), w)

  unfoldable pub get_device_socket : ℤ → List ℕ → List ℕ → W → (Bool × ℤ) × W
  get_device_socket sock_fd function_name iface_name w =
      after_load iface_name sock_fd (k.load_func function_name w)
