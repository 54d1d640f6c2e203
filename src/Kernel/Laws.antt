-- ===== src/Kernel/Laws.antt =====
-- What the program relies on: which sockets are open, and the flags of an interface.
use bpf_program.Base.{ℕ, ◌≡◌, refl, false, List, [], ◌∷◌, ◌==◌, ==_iff, if◌then◌else◌}
use bpf_program.Base.Int.{ℤ, pos, negsuc}
use bpf_program.Kernel.{Kernel, is_error}

-- The first occurrence is taken away.
unfoldable pub erase : ℕ → List ℕ → List ℕ
erase x [] = []
erase x (y ∷ ys) = let rest = y ∷ erase x ys in if x == y then ys else rest

-- A descriptor that was returned is open; a negative number is none.
abbrev pub opened : ℤ → List ℕ → List ℕ
opened (pos fd) fds = fd ∷ fds
opened (negsuc n) fds = fds

pub erase-cons : (x : ℕ) (xs : List ℕ) → erase x (x ∷ xs) ≡ xs
unfolding erase
erase-cons x xs = rw ((==_iff x x).1 refl) refl

-- `sockets w` are the packet sockets that the process has open, `flags w name` what the interface
-- of that name has. Only `socket` opens one and only `close` closes one.
pub record IsKernel {W : Type 0} (k : Kernel W) : Type 0 where
  pub sockets : W → List ℕ
  pub flags : W → List ℕ → ℕ
  pub sockets-socket : (w : W) → sockets (k.socket w).1 ≡ opened (k.socket w).0 (sockets w)
  pub sockets-close : (fd : ℕ) (w : W) → sockets (k.close fd w) ≡ erase fd (sockets w)
  pub sockets-bind :
      (fd : ℕ) (name : List ℕ) (w : W) → sockets (k.bind_to_device fd name w).1 ≡ sockets w
  pub sockets-get_flags :
      (fd : ℕ) (name : List ℕ) (w : W) → sockets (k.get_flags fd name w).1 ≡ sockets w
  pub sockets-set_flags :
      (fd : ℕ) (name : List ℕ) (x : ℕ) (w : W) → sockets (k.set_flags fd name x w).1 ≡ sockets w
  pub sockets-get_status : (fd : ℤ) (w : W) → sockets (k.get_status_flags fd w).1 ≡ sockets w
  pub sockets-set_status : (fd x : ℤ) (w : W) → sockets (k.set_status_flags fd x w).1 ≡ sockets w
  pub sockets-init : (text : List ℕ) (w : W) → sockets (k.init text w).1 ≡ sockets w
  pub sockets-load : (name : List ℕ) (w : W) → sockets (k.load_func name w).1 ≡ sockets w
  pub sockets-attach :
      (fd : ℕ) (function : ℤ) (w : W) → sockets (k.attach_socket fd function w).1 ≡ sockets w
  pub flags-socket : (name : List ℕ) (w : W) → flags (k.socket w).1 name ≡ flags w name
  pub flags-bind :
      (fd : ℕ) (device name : List ℕ) (w : W)
      → flags (k.bind_to_device fd device w).1 name ≡ flags w name
  pub flags-get :
      (fd : ℕ) (name : List ℕ) (w : W) → flags (k.get_flags fd name w).1 name ≡ flags w name
  pub value-get :
      (fd : ℕ) (name : List ℕ) (w : W)
      → is_error (k.get_flags fd name w).0.0 ≡ false
      → (k.get_flags fd name w).0.1 ≡ flags w name
  pub flags-set :
      (fd : ℕ) (name : List ℕ) (x : ℕ) (w : W)
      → is_error (k.set_flags fd name x w).0 ≡ false
      → flags (k.set_flags fd name x w).1 name ≡ x
