-- ===== src/Socket/Ownership.antt =====
-- `utils::Socket` owns its descriptor.
use bpf_program.Base.{ℕ, ◌≡◌, refl, ap, ◌∙◌, List, [], ◌∷◌, Bool-cases, inl, inr, ◌==◌, ==_iff}
use bpf_program.Base.Int.{ℤ, pos, negsuc}
use bpf_program.Kernel.{Kernel, error}
use bpf_program.Kernel.Laws.{IsKernel, erase, opened, erase-cons}
use bpf_program.Executor.Device.{get_raw_socket}
use bpf_program.Executor.Device.Sockets.{get_raw_socket-Settles}
use bpf_program.Socket.{Socket, new, close_socket, set_handle, set_non_blocking_mode}

module _ {W : Type 0} (k : Kernel W) where
  -- A new raw socket for each interface, one after the other, in one object.
  unfoldable pub reopen : List (List ℕ) → Socket × W → Socket × W
  reopen [] (s, w) = (s, w)
  reopen (name ∷ names) (s, w) =
      let raw = get_raw_socket k name w in reopen names (set_handle k raw.0 (s, raw.1))

-- Closing what was opened before the last socket.
erase-second : (a b : ℕ) (fds : List ℕ) → erase a (b ∷ a ∷ fds) ≡ b ∷ fds
unfolding erase
erase-second a b fds = elim (Bool-cases (a == b)) [
  | inl e ↦ rw e (ap (λ x. x ∷ fds) ((==_iff a b).0 e))
  | inr e ↦ rw (e, (==_iff a a).1 refl) refl
]

module _ {W : Type 0} {k : Kernel W} (law : IsKernel k) where
  open law use {sockets, sockets-close, sockets-get_status, sockets-set_status}

  -- Closing the socket held, next to one opened after it.
  pub close_socket-opened :
      (fds : List ℕ) (s raw : ℤ) (w : W)
      → sockets w ≡ opened raw (opened s fds)
      → sockets (close_socket k s w) ≡ opened raw fds
  unfolding close_socket
  close_socket-opened fds (negsuc n) raw w h = h
  close_socket-opened fds (pos a) (pos b) w h =
      sockets-close a w ∙ ap (erase a) h ∙ erase-second a b fds
  close_socket-opened fds (pos a) (negsuc n) w h =
      sockets-close a w ∙ ap (erase a) h ∙ erase-cons a fds

  -- The one open socket more is the one held, if any is.
  abbrev pub Owns : List ℕ → Socket × W → Type 0
  Owns fds (s, w) = sockets w ≡ opened s fds

  pub set_handle-Owns :
      (fds : List ℕ) (raw : ℤ) (s : Socket) (w : W)
      → sockets w ≡ opened raw (opened s fds)
      → Owns fds (set_handle k raw (s, w))
  unfolding set_handle
  set_handle-Owns fds raw s w h = close_socket-opened fds s raw w h

  reopen-Owns :
      (names : List (List ℕ)) (fds : List ℕ) (s : Socket) (w : W)
      → Owns fds (s, w)
      → Owns fds (reopen k names (s, w))
  unfolding reopen set_handle
  reopen-Owns [] fds s w h = h
  reopen-Owns (name ∷ names) fds s w h =
      let raw = get_raw_socket k name w in
      let both : sockets raw.1 ≡ opened raw.0 (opened s fds) =
        get_raw_socket-Settles law name w ∙ ap (opened raw.0) h in
      reopen-Owns names fds raw.0 (close_socket k s raw.1)
        (close_socket-opened fds s raw.0 raw.1 both)

  -- However many interfaces one `Socket` is given raw sockets of, and whichever of these fail to
  -- open, its destructor leaves exactly the sockets open that were so before.
  close_socket-reopen :
      (names : List (List ℕ)) (w : W)
      → sockets (close_socket k (reopen k names (new, w)).0 (reopen k names (new, w)).1) ≡ sockets w
  close_socket-reopen names w =
      close_socket-opened (sockets w) (reopen k names (new, w)).0 error (reopen k names (new, w)).1
        (reopen-Owns names (sockets w) new w refl)

  pub sockets-non_blocking :
      (s : Socket) (w : W) → sockets (set_non_blocking_mode k s w).1 ≡ sockets w
  unfolding set_non_blocking_mode
  sockets-non_blocking s w =
      sockets-set_status s _ (k.get_status_flags s w).1 ∙ sockets-get_status s w
