-- ===== src/Program/Tests.antt =====
-- The start of src/main.cpp on a kernel that attaches the program, and the mark of the identifier in
-- the place of its file.
use bpf_program.Base.{ℕ, ◌≡◌, some, List, ◌∷◌, []}
use bpf_program.Base.Int.{ℤ, pos}
use bpf_program.Engine.Tests.{zeros, length-zeros}
use bpf_program.Pipeline.Tests.{zeros-IsBytes}
use bpf_program.Kernel.Tests.{World, list_kernel, list_laws}
use bpf_program.Executor.{sv_mark}
use bpf_program.Engine.Setup.Sockets.{filled_in}
use bpf_program.Program.{settings, Arrays, Outcome, main}
use bpf_program.Program.Starts.{IsArray, Starts, main-Starts}

abbrev arrays : Arrays
arrays = record { own = zeros 8192; stored = zeros 8192; read = zeros 8192 }

abbrev world : World
world = record { fds = 3 ∷ []; flags = 1 }

abbrev file : List ℕ → List ℕ
file _ = sv_mark

zeros-IsArray : IsArray (zeros 8192)
zeros-IsArray = record { bytes_range = zeros-IsBytes 8192; bytes_length = length-zeros 8192 }

main-Starts_example :
    (o : Outcome ℤ World) × (main (list_kernel (pos 0)) file file arrays world ≡ some o)
    × Starts (list_laws (pos 0)) (3 ∷ []) (filled_in file settings sv_mark) o
main-Starts_example = main-Starts (list_laws (pos 0)) file file arrays world zeros-IsArray
