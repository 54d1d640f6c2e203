-- ===== src/Executor/Device/Tests.antt =====
-- The calls of the executor on a kernel that attaches, and on one that refuses to.
use bpf_program.Base.{ℕ, ◌≡◌, refl, true, List, [], ◌∷◌}
use bpf_program.Base.Int.{pos}
use bpf_program.Kernel.{error}
use bpf_program.Kernel.Tests.{World, list_kernel, list_laws}
use bpf_program.Executor.Device.{
  get_raw_socket, get_device_socket, attach_raw_socket, after_socket, after_bind, after_get,
  after_set, after_load, after_raw, after_attach,
}
use bpf_program.Executor.Device.Sockets.{Answers, get_device_socket-Answers}
use bpf_program.Executor.Device.Flags.{Listens, get_raw_socket-Listens}

abbrev world : World
world = record { fds = 3 ∷ []; flags = 1 }

abbrev iface : List ℕ
iface = b'e' ∷ b'0' ∷ []

device_run :
    get_device_socket (list_kernel (pos 0)) error [] iface world
    ≡ ((true, pos 4), record { fds = 4 ∷ 3 ∷ []; flags = 257 })
unfolding get_device_socket after_load attach_raw_socket get_raw_socket after_socket after_bind
    after_get after_set after_raw after_attach
device_run = refl

get_device_socket-Answers_example :
    Answers (list_laws error) (3 ∷ []) (get_device_socket (list_kernel error) error [] iface world)
get_device_socket-Answers_example = get_device_socket-Answers (list_laws error) error [] iface world

get_raw_socket-Listens_example :
    Listens (list_laws (pos 0)) iface 0x101 (get_raw_socket (list_kernel (pos 0)) iface world)
get_raw_socket-Listens_example = get_raw_socket-Listens (list_laws (pos 0)) iface world
