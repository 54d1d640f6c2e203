-- ===== src/Engine/Tests.antt =====
-- The engine with the buffer of src/main.cpp, of 8192 bytes, at two packets.
use bpf_program.Base.{ℕ, zero, suc, ◌≤◌, ◌≡◌, refl, arith, List, [], ◌∷◌, ◌++◌, length, take, All}
use bpf_program.Engine.{Arrival, nothing, packet, Engine, threshold, run}
use bpf_program.Engine.Delivery.{HasRoom, arrived, all_arrived, delivered}
use bpf_program.Engine.Cuts.{Cuts, run-Cuts}
use bpf_program.Engine.Loses.{run-Loses}

unfoldable pub zeros : ℕ → List ℕ
zeros zero = []
zeros (suc n) = 0 ∷ zeros n

pub length-zeros : (n : ℕ) → length (zeros n) ≡ n
unfolding zeros
length-zeros zero = refl
length-zeros (suc n) = omega (arith, length-zeros n)

abbrev pub start : Engine
start = record { buffer = record { bytes = zeros 8192; offset = 0; written = 0 }; handed = [] }

pub start-HasRoom : HasRoom start
start-HasRoom = (omega (arith, length-zeros 8192), omega (arith, length-zeros 8192))

abbrev arrivals : List Arrival
arrivals = packet (1 ∷ 2 ∷ 3 ∷ []) ∷ nothing ∷ packet (4 ∷ 5 ∷ []) ∷ []

-- A packet that is longer than the least room.
abbrev long : List ℕ
long = zeros 900

run-Cuts_example : Cuts start (run (packet long ∷ arrivals) start) (packet long ∷ arrivals)
run-Cuts_example = run-Cuts (packet long ∷ arrivals) start start-HasRoom

run-Loses_example :
    (before : List Arrival) × All (λ a. length (arrived a) ≤ threshold) before
    × (delivered (run (before ++ (packet long ∷ [])) start)
        ≡ delivered start ++ (all_arrived before ++ take threshold long))
run-Loses_example = run-Loses long start start-HasRoom
