-- ===== src/Kernel/Tests.antt =====
-- A kernel that keeps a list of the open sockets and one word of flags, and on which the attaching
-- of a program ends as it is told to.
use bpf_program.Base.{ℕ, suc, refl, true, List, [], ◌∷◌}
use bpf_program.Base.Int.{ℤ, pos}
use bpf_program.Kernel.{Kernel}
use bpf_program.Kernel.Laws.{IsKernel, erase}

pub record World : Type 0 where
  pub fds : List ℕ
  pub flags : ℕ

abbrev pub lowest : List ℕ → ℕ
lowest [] = 3
lowest (fd ∷ fds) = suc fd

abbrev pub list_kernel : ℤ → Kernel World
list_kernel attached = record {
  socket = λ w. (pos (lowest w.fds), record w { fds = lowest w.fds ∷ w.fds });
  bind_to_device = λ fd name w. (pos 0, w);
  close = λ fd w. record w { fds = erase fd w.fds };
  get_flags = λ fd name w. ((pos 0, w.flags), w);
  set_flags = λ fd name x w. (pos 0, record w { flags = x });
  get_status_flags = λ fd w. (pos 2, w);
  set_status_flags = λ fd x w. (pos 0, w);
  init = λ text w. (true, w);
  load_func = λ name w. ((true, pos 9), w);
  attach_socket = λ fd function w. (attached, w);
  iff_promisc = 0x100;
  o_nonblock = 0x800;
}

abbrev pub list_laws : (attached : ℤ) → IsKernel (list_kernel attached)
list_laws attached = record {
  sockets = λ w. w.fds;
  flags = λ w name. w.flags;
  sockets-socket = λ w. refl;
  sockets-close = λ fd w. refl;
  sockets-bind = λ fd name w. refl;
  sockets-get_flags = λ fd name w. refl;
  sockets-set_flags = λ fd name x w. refl;
  sockets-get_status = λ fd w. refl;
  sockets-set_status = λ fd x w. refl;
  sockets-init = λ text w. refl;
  sockets-load = λ name w. refl;
  sockets-attach = λ fd function w. refl;
  flags-socket = λ name w. refl;
  flags-bind = λ fd device name w. refl;
  flags-get = λ fd name w. refl;
  value-get = λ fd name w h. refl;
  flags-set = λ fd name x w h. refl;
}
