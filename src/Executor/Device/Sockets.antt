-- ===== src/Executor/Device/Sockets.antt =====
-- Which sockets are open behind the functions of src/iec_core/engines/bpf_exec.cpp.
use Prim.Native.Nat.{bit_or}
use bpf_program.Base.{ℕ, ◌≡◌, refl, ap, ◌∙◌, Bool, true, false, List, [], ◌∷◌, Bool-cases, inl, inr}
use bpf_program.Base.Int.{ℤ, pos, negsuc}
use bpf_program.Kernel.{Kernel, is_negative, is_error}
use bpf_program.Kernel.Laws.{IsKernel, erase, opened, erase-cons}
use bpf_program.Executor.Device.{
  ifr_name, give_up, after_set, after_get, after_bind, after_socket, get_raw_socket, after_attach,
  after_raw, attach_raw_socket, after_load, get_device_socket,
}

module _ {W : Type 0} {k : Kernel W} (law : IsKernel k) where
  open law use {
    sockets, sockets-socket, sockets-close, sockets-bind, sockets-get_flags, sockets-set_flags,
    sockets-load, sockets-attach,
  }

  -- The descriptor that is returned is the only new open socket.
  abbrev pub Settles : List ℕ → ℤ × W → Type 0
  Settles fds r = sockets r.1 ≡ opened r.0 fds

  give_up-Settles :
      (fds : List ℕ) (fd : ℕ) (w : W) → sockets w ≡ fd ∷ fds → Settles fds (give_up k fd w)
  unfolding give_up
  give_up-Settles fds fd w h = sockets-close fd w ∙ ap (erase fd) h ∙ erase-cons fd fds

  after_set-Settles :
      (fds : List ℕ) (fd : ℕ) (r : ℤ × W) → sockets r.1 ≡ fd ∷ fds → Settles fds (after_set k fd r)
  unfolding after_set
  after_set-Settles fds fd (status, w) h = elim (Bool-cases (is_error status)) [
    | inl e ↦ rw e (give_up-Settles fds fd w h)
    | inr e ↦ rw e h
  ]

  after_get-Settles :
      (name fds : List ℕ) (fd : ℕ) (r : (ℤ × ℕ) × W)
      → sockets r.1 ≡ fd ∷ fds
      → Settles fds (after_get k name fd r)
  unfolding after_get
  after_get-Settles name fds fd ((status, flags), w) h = elim (Bool-cases (is_error status)) [
    | inl e ↦ rw e (give_up-Settles fds fd w h)
    | inr e ↦
        rw e (
          after_set-Settles fds fd _ (sockets-set_flags fd name (bit_or flags k.iff_promisc) w ∙ h))
  ]

  after_bind-Settles :
      (name fds : List ℕ) (fd : ℕ) (r : ℤ × W)
      → sockets r.1 ≡ fd ∷ fds
      → Settles fds (after_bind k name fd r)
  unfolding after_bind
  after_bind-Settles name fds fd (status, w) h = elim (Bool-cases (is_negative status)) [
    | inl e ↦ rw e (give_up-Settles fds fd w h)
    | inr e ↦ rw e (after_get-Settles name fds fd _ (sockets-get_flags fd name w ∙ h))
  ]

  after_socket-Settles :
      (name fds : List ℕ) (r : ℤ × W)
      → sockets r.1 ≡ opened r.0 fds
      → Settles fds (after_socket k name r)
  unfolding after_socket
  after_socket-Settles name fds (negsuc n, w) h = h
  after_socket-Settles [] fds (pos fd, w) h =
      after_get-Settles [] fds fd _ (sockets-get_flags fd [] w ∙ h)
  after_socket-Settles (c ∷ cs) fds (pos fd, w) h =
      after_bind-Settles (ifr_name (c ∷ cs)) fds fd _ (sockets-bind fd (c ∷ cs) w ∙ h)

  -- Whatever call fails, `getRawSocket` leaves no socket open but the one that it returns.
  pub get_raw_socket-Settles :
      (iface_name : List ℕ) (w : W) → Settles (sockets w) (get_raw_socket k iface_name w)
  unfolding get_raw_socket
  get_raw_socket-Settles iface_name w =
      after_socket-Settles iface_name (sockets w) (k.socket w) (sockets-socket w)

  -- On success the reference is the one new open socket; on failure the open sockets are the same.
  unfoldable pub Answers : List ℕ → (Bool × ℤ) × W → Type 0
  Answers fds ((true, sock_fd), w) = (fd : ℕ) × (sock_fd ≡ pos fd) × (sockets w ≡ fd ∷ fds)
  Answers fds ((false, sock_fd), w) = sockets w ≡ fds

  after_attach-Answers :
      (fds : List ℕ) (fd : ℕ) (r : ℤ × W)
      → sockets r.1 ≡ fd ∷ fds
      → Answers fds (after_attach k fd r)
  unfolding after_attach Answers
  after_attach-Answers fds fd (result, w) h = elim (Bool-cases (is_negative result)) [
    | inl e ↦ rw e (sockets-close fd w ∙ ap (erase fd) h ∙ erase-cons fd fds)
    | inr e ↦ rw e (fd, refl, h)
  ]

  after_raw-Answers :
      (fds : List ℕ) (function : ℤ) (r : ℤ × W)
      → Settles fds r
      → Answers fds (after_raw k function r)
  unfolding after_raw Answers
  after_raw-Answers fds function (negsuc n, w) h = h
  after_raw-Answers fds function (pos fd, w) h =
      after_attach-Answers fds fd (k.attach_socket fd function w) (sockets-attach fd function w ∙ h)

  after_load-Answers :
      (fds iface_name : List ℕ) (sock_fd : ℤ) (r : (Bool × ℤ) × W)
      → sockets r.1 ≡ fds
      → Answers fds (after_load k iface_name sock_fd r)
  unfolding after_load Answers attach_raw_socket
  after_load-Answers fds iface_name sock_fd ((true, function), w) h =
      after_raw-Answers fds function (get_raw_socket k iface_name w)
        (get_raw_socket-Settles iface_name w ∙ ap (opened (get_raw_socket k iface_name w).0) h)
  after_load-Answers fds iface_name sock_fd ((false, function), w) h = h

  -- `getDeviceSocket` opens exactly the socket that it hands out if its status is ok, and leaves
  -- none open if it is not, whichever of the calls below it failed.
  pub get_device_socket-Answers :
      (sock_fd : ℤ) (function_name iface_name : List ℕ) (w : W)
      → Answers (sockets w) (get_device_socket k sock_fd function_name iface_name w)
  unfolding get_device_socket
  get_device_socket-Answers sock_fd function_name iface_name w =
      after_load-Answers (sockets w) iface_name sock_fd (k.load_func function_name w)
        (sockets-load function_name w)
