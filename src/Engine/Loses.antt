-- ===== src/Engine/Loses.antt =====
-- The free size at which `BPFEngine::run` of include/iec_core/engines/bpf_engine.h hands over, and
-- longer packets.
use bpf_program.Base.{
  ℕ, zero, suc, ◌+◌, ◌-◌, ◌^◌, ◌≤◌, ◌<◌, ◌≡◌, refl, ap, ◌∙◌, List, [], ◌∷◌, ◌++◌, length, take,
  arith, All, Bool-cases, inl, inr, ltb,
}
use mathlib.Core.List.{append_assoc}
use bpf_program.Buffer.{size, get_free_size}
use bpf_program.Engine.{Arrival, packet, Engine, read_to, threshold, hand_over, turn, run}
use bpf_program.Engine.Delivery.{
  arrived, all_arrived, delivered, HasRoom, get_free_size-HasRoom, read_to-Stored, run-Delivers,
}
use bpf_program.Engine.Cuts.{turn-keeps}

abbrev one_byte : Arrival
one_byte = packet (0 ∷ [])

abbrev bytes_one_by_one : ℕ → List Arrival
bytes_one_by_one zero = []
bytes_one_by_one (suc n) = one_byte ∷ bytes_one_by_one n

one_by_one-short : (n : ℕ) → All (λ a. length (arrived a) ≤ threshold) (bytes_one_by_one n)
one_by_one-short zero = tt
one_by_one-short (suc n) = (omega arith, one_by_one-short n)

-- A byte for which there is more room than is needed.
turn-one_byte :
    (e : Engine)
    → e.buffer.written + 1 + threshold ≤ size e.buffer
    → size e.buffer < 2 ^ 64
    → ((turn one_byte e).buffer.written ≡ e.buffer.written + 1)
      × (size (turn one_byte e).buffer ≡ size e.buffer)
unfolding turn hand_over
turn-one_byte e room small =
    let b = read_to one_byte e.buffer in
    let s = read_to-Stored e one_byte (omega (arith, room), small) (omega arith) in
    elim (Bool-cases (ltb (get_free_size b) threshold)) [
      | inl full ↦ absurd (ground (arith, full, s.same_size, s.end, room, small))
      | inr free ↦ rw free (s.end, s.same_size)
    ]

run-one_by_one :
    (n : ℕ) (e : Engine)
    → e.buffer.written + n + threshold ≡ size e.buffer
    → size e.buffer < 2 ^ 64
    → (run (bytes_one_by_one n) e).buffer.written + threshold
      ≡ size (run (bytes_one_by_one n) e).buffer
unfolding run
run-one_by_one zero e h small = omega (arith, h)
run-one_by_one (suc n) e h small =
    let one = turn-one_byte e (omega (arith, h)) small in
    run-one_by_one n (turn one_byte e) (omega (arith, h, one.0, one.1))
      (omega (arith, small, one.1))

run-append : (xs ys : List Arrival) (e : Engine) → run (xs ++ ys) e ≡ run ys (run xs e)
unfolding run
run-append [] ys e = refl
run-append (x ∷ xs) ys e = run-append xs ys (turn x e)

run-packet :
    (bytes : List ℕ) (e : Engine)
    → HasRoom e
    → delivered (run (packet bytes ∷ []) e) ≡ delivered e ++ take (get_free_size e.buffer) bytes
unfolding run
run-packet bytes e room = (turn-keeps bytes e room).all_there

-- Whatever packet comes, there are packets of at most 800 bytes that may come before it and bring
-- the engine to where it keeps only the packet's first 800 bytes; it loses the others, if there are
-- any. The buffer, of fewer than 2^64 bytes, has room for 800 at the start.
pub run-Loses :
    (bytes : List ℕ) (e : Engine)
    → HasRoom e
    → (before : List Arrival) × All (λ a. length (arrived a) ≤ threshold) before
      × (delivered (run (before ++ (packet bytes ∷ [])) e)
          ≡ delivered e ++ (all_arrived before ++ take threshold bytes))
run-Loses bytes e room =
    let n = size e.buffer - threshold - e.buffer.written in
    let before = bytes_one_by_one n in
    let f = run before e in
    let d = run-Delivers before e room (one_by_one-short n) in
    let full = run-one_by_one n e (omega (arith, room.0)) room.1 in
    let free : get_free_size f.buffer ≡ threshold =
      omega (arith, full, get_free_size-HasRoom f d.room) in
    (
      before,
      one_by_one-short n,
      ap delivered (run-append before (packet bytes ∷ []) e)
          ∙ run-packet bytes f d.room
          ∙ ap (λ k. delivered f ++ take k bytes) free
          ∙ ap (λ l. l ++ take threshold bytes) d.all_there
          ∙ append_assoc (delivered e) (all_arrived before) (take threshold bytes),
    )
