-- ===== src/Executor/Device/Flags.antt =====
-- What `getRawSocket` of src/iec_core/engines/bpf_exec.cpp does to the interface.
use Prim.Native.Nat.{bit_or}
use bpf_program.Base.{ℕ, ◌≡◌, ◌∙◌, List, [], ◌∷◌, Bool-cases, inl, inr}
use bpf_program.Base.Int.{ℤ, pos, negsuc}
use bpf_program.Kernel.{Kernel, is_negative, is_error}
use bpf_program.Kernel.Laws.{IsKernel}
use bpf_program.Executor.Device.{
  ifr_name, give_up, after_set, after_get, after_bind, after_socket, get_raw_socket,
}

module _ {W : Type 0} {k : Kernel W} (law : IsKernel k) where
  open law use {flags, flags-socket, flags-bind, flags-get, value-get, flags-set}

  -- A descriptor means that the interface has the flags `x`.
  unfoldable pub Listens : List ℕ → ℕ → ℤ × W → Type 0
  Listens name x (pos fd, w) = flags w name ≡ x
  Listens name x (negsuc n, w) = Unit

  after_set-Listens :
      (name : List ℕ) (x fd : ℕ) (w : W) → Listens name x (after_set k fd (k.set_flags fd name x w))
  unfolding after_set Listens give_up
  after_set-Listens name x fd w = elim (Bool-cases (is_error (k.set_flags fd name x w).0)) [
    | inl e ↦ rw e tt
    | inr e ↦ rw e (flags-set fd name x w e)
  ]

  after_get-Listens :
      (name : List ℕ) (x fd : ℕ) (w : W)
      → flags w name ≡ x
      → Listens name (bit_or x k.iff_promisc) (after_get k name fd (k.get_flags fd name w))
  unfolding after_get Listens give_up
  after_get-Listens name x fd w h = elim (Bool-cases (is_error (k.get_flags fd name w).0.0)) [
    | inl e ↦ rw e tt
    | inr e ↦
        rw (e, value-get fd name w e, h)
          (after_set-Listens name (bit_or x k.iff_promisc) fd (k.get_flags fd name w).1)
  ]

  after_bind-Listens :
      (name : List ℕ) (x fd : ℕ) (r : ℤ × W)
      → flags r.1 name ≡ x
      → Listens name (bit_or x k.iff_promisc) (after_bind k name fd r)
  unfolding after_bind Listens give_up
  after_bind-Listens name x fd (status, w) h = elim (Bool-cases (is_negative status)) [
    | inl e ↦ rw e tt
    | inr e ↦ rw e (after_get-Listens name x fd w h)
  ]

  after_socket-Listens :
      (name : List ℕ) (x : ℕ) (r : ℤ × W)
      → flags r.1 (ifr_name name) ≡ x
      → Listens (ifr_name name) (bit_or x k.iff_promisc) (after_socket k name r)
  unfolding after_socket Listens
  after_socket-Listens name x (negsuc n, w) h = tt
  after_socket-Listens [] x (pos fd, w) h = after_get-Listens [] x fd w h
  after_socket-Listens (c ∷ cs) x (pos fd, w) h =
      after_bind-Listens (ifr_name (c ∷ cs)) x fd (k.bind_to_device fd (c ∷ cs) w)
        (flags-bind fd (c ∷ cs) (ifr_name (c ∷ cs)) w ∙ h)

  -- If `getRawSocket` returns a descriptor, the interface whose name is the first 15 characters of
  -- the name given has the flags that it had before, with the promiscuous one set.
  pub get_raw_socket-Listens :
      (iface_name : List ℕ) (w : W)
      → Listens
          (ifr_name iface_name)
          (bit_or (flags w (ifr_name iface_name)) k.iff_promisc)
          (get_raw_socket k iface_name w)
  unfolding get_raw_socket
  get_raw_socket-Listens iface_name w =
      after_socket-Listens iface_name (flags w (ifr_name iface_name)) (k.socket w)
        (flags-socket (ifr_name iface_name) w)
