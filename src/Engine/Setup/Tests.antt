-- ===== src/Engine/Setup/Tests.antt =====
-- The set-up of an engine that has a socket, on a kernel that refuses to attach.
use bpf_program.Base.{ℕ, ◌≡◌, refl, Bool, some, List, [], ◌∷◌}
use bpf_program.Base.Int.{pos}
use bpf_program.Kernel.{error}
use bpf_program.Kernel.Tests.{World, list_kernel, list_laws}
use bpf_program.Text.{starts_with, search, find}
use bpf_program.Text.Search.{scan}
use bpf_program.Executor.{sv_mark}
use bpf_program.Executor.Source.{mac_text, id_text}
use bpf_program.Executor.Again.{IsFilledIn}
use bpf_program.Engine.Setup.{EngineSettings, BpfEngine, after_init, setup}
use bpf_program.Engine.Setup.Sockets.{filled_in, IsReady, setup-IsReady}
use bpf_program.Engine.Setup.Again.{setup-again}

abbrev settings : EngineSettings
settings = record { iface = b'e' ∷ b'0' ∷ []; source_mac = b'0' ∷ []; sv_id = b'M' ∷ [] }

abbrev world : World
world = record { fds = 4 ∷ 3 ∷ []; flags = 1 }

abbrev no_file : List ℕ → List ℕ
no_file _ = []

-- A program with the identifier's mark, on an engine that has a socket.
abbrev engine : BpfEngine
engine = record { executor = record { bpf_prog = sv_mark }; socket = pos 4 }

setup-IsReady_example :
    (r : Bool × BpfEngine × World) × (setup (list_kernel error) no_file settings engine world
      ≡ some r)
    × IsReady (list_laws error) (3 ∷ []) (pos 4) (filled_in no_file settings sv_mark) r
setup-IsReady_example = setup-IsReady (list_laws error) no_file settings (3 ∷ []) engine world refl

abbrev others : EngineSettings
others = record { iface = b'e' ∷ b'1' ∷ []; source_mac = b'1' ∷ []; sv_id = [] }

abbrev filled : List ℕ
filled = filled_in no_file settings sv_mark

filled-IsFilledIn : IsFilledIn filled
unfolding id_text mac_text scan starts_with find search
filled-IsFilledIn = record {
  no_iface = refl;
  no_src = refl;
  no_sv = refl;
  no_literal = refl;
  no_test = refl;
}

setup-again_example :
    (r : Bool × BpfEngine × World) × (setup (list_kernel (pos 0)) no_file settings engine world
      ≡ some r)
    × (setup (list_kernel (pos 0)) no_file others r.1 world
        ≡ some (
            after_init
              (list_kernel (pos 0))
              others.iface
              r.1
              ((list_kernel (pos 0)).init filled world)))
setup-again_example =
    setup-again (list_kernel (pos 0)) no_file settings others engine world world filled-IsFilledIn
