-- ===== src/Engine/Setup/Again.antt =====
-- `BPFEngine::setup` (include/iec_core/engines/bpf_engine.h), called on an engine for a second time.
use bpf_program.Base.{ℕ, ◌≡◌, refl, sym, ap, ◌∙◌, Bool, true, false, some, List}
use mathlib.Core.Path.{subst}
use bpf_program.Base.Int.{ℤ, pos, negsuc}
use bpf_program.Kernel.{Kernel, error}
use bpf_program.Executor.{BpfExecutor}
use bpf_program.Executor.Source.{filter_source_code-id_text}
use bpf_program.Executor.Again.{IsFilledIn, filter_source_code-absent}
use bpf_program.Executor.Device.{get_device_socket}
use bpf_program.Engine.Setup.{
  c_settings, EngineSettings, BpfEngine, function_name, after_device, after_init, with_source,
  setup,
}
use bpf_program.Engine.Setup.Sockets.{filled_in}

module _ {W : Type 0} (k : Kernel W) where
  after_device-executor :
      (e : BpfEngine) (r : (Bool × ℤ) × W) → (after_device k e r).1.executor ≡ e.executor
  unfolding after_device
  after_device-executor e ((true, pos fd), w) = refl
  after_device-executor e ((true, negsuc n), w) = refl
  after_device-executor e ((false, fd), w) = refl

  after_init-executor :
      (iface : List ℕ) (e : BpfEngine) (r : Bool × W)
      → (after_init k iface e r).1.executor ≡ e.executor
  unfolding after_init
  after_init-executor iface e (true, w) =
      after_device-executor e (get_device_socket k error function_name iface w)
  after_init-executor iface e (false, w) = refl

  with_source-absent :
      (read_address : List ℕ → List ℕ) (settings : EngineSettings) (e : BpfEngine) (w : W)
      → IsFilledIn e.executor.bpf_prog
      → setup k read_address settings e w
        ≡ some (after_init k (c_settings settings).iface e (k.init e.executor.bpf_prog w))
  unfolding setup with_source
  with_source-absent read_address settings e w h =
      let read = c_settings settings in
      ap (with_source k read.iface e w) (
        filter_source_code-absent read_address e.executor.bpf_prog read.iface read.source_mac
          read.sv_id h)

  -- Where the first settings, read up to their first 0, leave none of the strings in the program that `filterSourceCode` looks
  -- for, a second call of `setup` compiles the text that the first one compiled, whatever its own
  -- settings are: of these only the interface plays a part, and it in the opening of the socket.
  pub setup-again :
      (read_address : List ℕ → List ℕ) (first second : EngineSettings) (e : BpfEngine) (w w' : W)
      → IsFilledIn (filled_in read_address (c_settings first) e.executor.bpf_prog)
      → (r : Bool × BpfEngine × W) × (setup k read_address first e w ≡ some r)
        × (setup k read_address second r.1 w'
            ≡ some (
                after_init k
                  (c_settings second).iface
                  r.1
                  (k.init (filled_in read_address (c_settings first) e.executor.bpf_prog) w')))
  unfolding setup with_source
  setup-again read_address first second e w w' h =
      let text = filled_in read_address (c_settings first) e.executor.bpf_prog in
      let filtered = record e { executor = record { bpf_prog = text } } in
      let read = c_settings first in
      let r = after_init k read.iface filtered (k.init text w) in
      let kept : r.1.executor.bpf_prog ≡ text =
        ap (λ (x : BpfExecutor). x.bpf_prog)
          (after_init-executor read.iface filtered (k.init text w)) in
      (
        r,
        ap (with_source k read.iface e w) (
            filter_source_code-id_text read_address e.executor.bpf_prog read.iface read.source_mac
              read.sv_id),
        with_source-absent read_address second r.1 w' (subst IsFilledIn (sym kept) h)
            ∙ ap (λ t. some (after_init k (c_settings second).iface r.1 (k.init t w'))) kept,
      )
