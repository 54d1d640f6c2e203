-- ===== src/Engine/Setup/Sockets.antt =====
-- The sockets of an engine that `setup` of include/iec_core/engines/bpf_engine.h was called on.
use bpf_program.Base.{ℕ, ◌≡◌, refl, ap, ◌∙◌, Bool, true, false, some, List, ◌∷◌}
use mathlib.Core.Path.{subst}
use bpf_program.Base.Int.{ℤ, pos, negsuc}
use bpf_program.Kernel.{Kernel, error}
use bpf_program.Kernel.Laws.{IsKernel, opened}
use bpf_program.Text.Search.{scan}
use bpf_program.Executor.{iface_mark, src_mark}
use bpf_program.Executor.Source.{mac_text, id_text, filter_source_code-id_text}
use bpf_program.Executor.Device.{get_device_socket}
use bpf_program.Executor.Device.Sockets.{Answers, get_device_socket-Answers}
use bpf_program.Socket.{Socket, set_handle}
use bpf_program.Socket.Ownership.{Owns, set_handle-Owns, sockets-non_blocking}
use bpf_program.Engine.Setup.{
  c_settings, EngineSettings, BpfEngine, function_name, after_device, after_init, with_source,
  setup,
}

set_handle-handle :
    {W : Type 0} (k : Kernel W) (fd : ℤ) (s : Socket) (w : W) → (set_handle k fd (s, w)).0 ≡ fd
unfolding set_handle
set_handle-handle k fd s w = refl

-- The text with its marks replaced in one pass each.
abbrev pub filled_in : (List ℕ → List ℕ) → EngineSettings → List ℕ → List ℕ
filled_in read_address settings program =
    let mac = mac_text read_address settings.iface in
    id_text settings.sv_id (scan src_mark settings.source_mac 0 (scan iface_mark mac 0 program))

module _ {W : Type 0} {k : Kernel W} (law : IsKernel k) where
  open law use {sockets, sockets-init}

  -- `true` comes with one new open socket, the engine's, in place of the one it had, and `false`
  -- with the engine's socket and the open sockets as they were; the program has the text given.
  unfoldable pub IsReady : List ℕ → Socket → List ℕ → Bool × BpfEngine × W → Type 0
  IsReady fds old text (true, e, w) =
      (fd : ℕ) × (e.socket ≡ pos fd) × (sockets w ≡ fd ∷ fds) × (e.executor.bpf_prog ≡ text)
  IsReady fds old text (false, e, w) =
      (e.socket ≡ old) × (sockets w ≡ opened old fds) × (e.executor.bpf_prog ≡ text)

  after_device-IsReady :
      (fds : List ℕ) (e : BpfEngine) (r : (Bool × ℤ) × W)
      → Answers law (opened e.socket fds) r
      → IsReady fds e.socket e.executor.bpf_prog (after_device k e r)
  unfolding after_device IsReady Answers
  after_device-IsReady fds e ((true, pos fd), w) (fd', eq, h) =
      let old = e.socket in
      let same : fd' ≡ fd = cc in
      let owned : Owns law fds (set_handle k (pos fd) (old, w)) =
        set_handle-Owns law fds (pos fd) old w (h ∙ ap (λ x. x ∷ opened old fds) same) in
      (
        fd,
        set_handle-handle k (pos fd) old w,
        sockets-non_blocking law (set_handle k (pos fd) (old, w)).0
              (set_handle k (pos fd) (old, w)).1
            ∙ owned
            ∙ ap (λ x. opened x fds) (set_handle-handle k (pos fd) old w),
        refl,
      )
  after_device-IsReady fds e ((true, negsuc n), w) (fd', eq, h) = absurd (cc)
  after_device-IsReady fds e ((false, fd), w) h = (refl, h, refl)

  after_init-IsReady :
      (iface fds : List ℕ) (e : BpfEngine) (r : Bool × W)
      → sockets r.1 ≡ opened e.socket fds
      → IsReady fds e.socket e.executor.bpf_prog (after_init k iface e r)
  unfolding after_init IsReady
  after_init-IsReady iface fds e (true, w) h =
      after_device-IsReady fds e (get_device_socket k error function_name iface w) (
        subst (λ l. Answers law l (get_device_socket k error function_name iface w)) h
          (get_device_socket-Answers law error function_name iface w))
  after_init-IsReady iface fds e (false, w) h = (refl, h, refl)

  -- `setup` returns on every program text and setting, and leaves the program with its marks
  -- replaced by the settings up to their first 0. If it returns true, the engine has a new open socket, and the one that it had before
  -- is closed; if false, whichever call failed, the engine's socket and the open sockets are as
  -- before. The engine owns its socket when it is called.
  pub setup-IsReady :
      (read_address : List ℕ → List ℕ) (settings : EngineSettings) (fds : List ℕ) (e : BpfEngine)
      (w : W)
      → sockets w ≡ opened e.socket fds
      → (r : Bool × BpfEngine × W) × (setup k read_address settings e w ≡ some r)
        × IsReady fds e.socket (filled_in read_address (c_settings settings) e.executor.bpf_prog) r
  unfolding setup with_source
  setup-IsReady read_address settings fds e w h =
      let read = c_settings settings in
      let text =
        filter_source_code-id_text read_address e.executor.bpf_prog read.iface read.source_mac
          read.sv_id in
      (
        _,
        ap (with_source k read.iface e w) text,
        after_init-IsReady read.iface fds
            (record e {
              executor = record {
                bpf_prog = filled_in read_address (c_settings settings) e.executor.bpf_prog;
              };
            })
            (k.init _ w) (sockets-init _ w ∙ h),
      )
