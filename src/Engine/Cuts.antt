-- ===== src/Engine/Cuts.antt =====
-- What the engine of include/iec_core/engines/bpf_engine.h keeps of packets of any length.
use bpf_program.Base.{
  ℕ, ◌+◌, ◌≤◌, ◌≡◌, refl, sym, ap, ◌∙◌, List, [], ◌∷◌, ◌++◌, length, take, arith, concat,
  length-take-le,
}
use mathlib.Core.List.{append_assoc, append-nil}
use bpf_program.Buffer.{size, get_free_size}
use bpf_program.Engine.{Arrival, nothing, packet, Engine, read_to, threshold, turn, run}
use bpf_program.Engine.Delivery.{
  arrived, delivered, HasRoom, get_free_size-HasRoom, take_all, append_written-store, Delivers,
  hand_over-Delivers,
}

-- The first bytes of what came in, 800 at least where there are as many.
pub record IsCut (piece : List ℕ) (arrival : Arrival) : Type 0 where
  pub limit : ℕ
  pub least : threshold ≤ limit
  pub cut : piece ≡ take limit (arrived arrival)

abbrev pub AreCut : List (List ℕ) → List Arrival → Type 0
AreCut [] [] = Unit
AreCut (p ∷ ps) (a ∷ arrivals) = IsCut p a × AreCut ps arrivals
AreCut _ _ = ⊥

-- The outcome of a piece of the loop.
pub record Cuts (e f : Engine) (arrivals : List Arrival) : Type 0 where
  pub pieces : List (List ℕ)
  pub pieces_cut : AreCut pieces arrivals
  pub delivers : Delivers e f (concat pieces)

pub turn-keeps :
    (bytes : List ℕ) (e : Engine)
    → HasRoom e
    → Delivers e (turn (packet bytes) e) (take (get_free_size e.buffer) bytes)
unfolding turn read_to
turn-keeps bytes e room =
    let got = take (get_free_size e.buffer) bytes in
    let fits : e.buffer.written + length got ≤ size e.buffer =
      omega (arith, get_free_size-HasRoom e room, length-take-le (get_free_size e.buffer) bytes) in
    hand_over-Delivers e _ got room fits (append_written-store e.buffer got fits room.1)

record CutOff (e f : Engine) (arrival : Arrival) : Type 0 where
  piece : List ℕ
  is_cut : IsCut piece arrival
  delivers : Delivers e f piece

turn-CutOff : (arrival : Arrival) (e : Engine) → HasRoom e → CutOff e (turn arrival e) arrival
unfolding turn read_to
turn-CutOff nothing e room = record {
  piece = [];
  is_cut = record {
    limit = threshold;
    least = omega arith;
    cut = sym (take_all [] threshold (omega arith));
  };
  delivers =
      hand_over-Delivers e e.buffer [] room (omega (arith, room.0))
        (record { same_size = refl; end = omega arith; appended = sym (append-nil _) });
}
turn-CutOff (packet bytes) e room = record {
  piece = take (get_free_size e.buffer) bytes;
  is_cut = record {
    limit = get_free_size e.buffer;
    least = omega (arith, get_free_size-HasRoom e room, room.0);
    cut = refl;
  };
  delivers = turn-keeps bytes e room;
}

-- Packets of any length: the loop ends with room for 800 bytes, and the bytes of the buffers handed
-- over and of the current one are, in order, those there at the start and of each packet that came
-- in the first ones, all of them or 800 at least. The buffer, of fewer than 2^64 bytes, has room for
-- 800 at the start.
pub run-Cuts : (arrivals : List Arrival) (e : Engine) → HasRoom e → Cuts e (run arrivals e) arrivals
unfolding run
run-Cuts [] e room = record {
  pieces = [];
  pieces_cut = tt;
  delivers = record { room = room; all_there = sym (append-nil (delivered e)) };
}
run-Cuts (arrival ∷ arrivals) e room =
    let one = turn-CutOff arrival e room in
    let more = run-Cuts arrivals (turn arrival e) one.delivers.room in
    record {
      pieces = one.piece ∷ more.pieces;
      pieces_cut = (one.is_cut, more.pieces_cut);
      delivers = record {
        room = more.delivers.room;
        all_there =
            more.delivers.all_there
            ∙ ap (λ l. l ++ concat more.pieces) one.delivers.all_there
            ∙ append_assoc (delivered e) one.piece (concat more.pieces);
      };
    }
