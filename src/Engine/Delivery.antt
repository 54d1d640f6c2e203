-- ===== src/Engine/Delivery.antt =====
-- What the handler is given by the engine of include/iec_core/engines/bpf_engine.h.
use bpf_program.Base.{
  ℕ, zero, suc, ◌+◌, ◌%◌, ◌^◌, ◌≤◌, ◌<◌, ◌≡◌, refl, sym, ap, ◌∙◌, List, [], ◌∷◌, ◌++◌, ltb,
  Bool-cases, inl, inr, length, take, drop, arith, All, length-append, length-take, length-drop,
  take-append,
}
use mathlib.Core.List.{append_assoc, append-nil}
use bpf_program.Buffer.{StaticBuffer, size, append_written, get_free_size}
use bpf_program.Engine.{
  Arrival, nothing, packet, Engine, store, read_to, threshold, hand_over, turn, run,
}

-- The bytes written, and those of several buffers in order.
abbrev pub content : StaticBuffer → List ℕ
content b = take b.written b.bytes

abbrev pub contents : List StaticBuffer → List ℕ
contents [] = []
contents (b ∷ bs) = content b ++ contents bs

abbrev pub arrived : Arrival → List ℕ
arrived nothing = []
arrived (packet bytes) = bytes

abbrev pub all_arrived : List Arrival → List ℕ
all_arrived [] = []
all_arrived (a ∷ rest) = arrived a ++ all_arrived rest

-- Everything that came in so far.
abbrev pub delivered : Engine → List ℕ
delivered e = contents e.handed ++ content e.buffer

-- There is room for a packet of the threshold's length.
abbrev pub HasRoom : Engine → Type 0
HasRoom e = (e.buffer.written + threshold ≤ size e.buffer) × (size e.buffer < 2 ^ 64)

contents-append : (bs cs : List StaticBuffer) → contents (bs ++ cs) ≡ contents bs ++ contents cs
contents-append [] cs = refl
contents-append (b ∷ bs) cs =
    ap (λ l. content b ++ l) (contents-append bs cs)
    ∙ sym (append_assoc (content b) (contents bs) (contents cs))

pub take_all : (xs : List ℕ) (n : ℕ) → length xs ≤ n → take n xs ≡ xs
take_all [] zero h = refl
take_all [] (suc n) h = refl
take_all (x ∷ xs) zero h = absurd (omega arith)
take_all (x ∷ xs) (suc n) h = ap (◌∷◌ x) (take_all xs n (omega (arith, h)))

pub get_free_size-HasRoom :
    (e : Engine) → HasRoom e → get_free_size e.buffer + e.buffer.written ≡ size e.buffer
get_free_size-HasRoom e h = omega (arith, h.0, h.1)

-- A packet that fits is appended as it is.
pub record Stored (b c : StaticBuffer) (bytes : List ℕ) : Type 0 where
  pub same_size : size c ≡ size b
  pub end : c.written ≡ b.written + length bytes
  pub appended : content c ≡ content b ++ bytes

take-stored :
    (front bytes back : List ℕ) (n : ℕ)
    → n ≡ length (front ++ bytes)
    → take n (front ++ (bytes ++ back)) ≡ front ++ bytes
take-stored front bytes back n e =
    rw (e, sym (append_assoc front bytes back)) (take-append (front ++ bytes) back)

pub append_written-store :
    (b : StaticBuffer) (bytes : List ℕ)
    → b.written + length bytes ≤ size b
    → size b < 2 ^ 64
    → Stored b (append_written (length bytes) (store bytes b)) bytes
unfolding store
append_written-store b bytes fits small =
    let front : length (take b.written b.bytes) ≡ b.written =
      length-take b.written b.bytes (omega (arith, fits)) in
    let end : (b.written + length bytes) % 2 ^ 64 ≡ b.written + length bytes =
      omega (arith, fits, small) in
    record {
      same_size = omega (
        arith,
        fits,
        front,
        length-append (take b.written b.bytes) (bytes ++ drop (b.written + length bytes) b.bytes),
        length-append bytes (drop (b.written + length bytes) b.bytes),
        length-drop (b.written + length bytes) b.bytes,
      );
      end = end;
      appended =
          take-stored (take b.written b.bytes) bytes (drop (b.written + length bytes) b.bytes) _
            (omega (arith, end, front, length-append (take b.written b.bytes) bytes));
    }

pub read_to-Stored :
    (e : Engine) (arrival : Arrival)
    → HasRoom e
    → length (arrived arrival) ≤ threshold
    → Stored e.buffer (read_to arrival e.buffer) (arrived arrival)
unfolding read_to
read_to-Stored e nothing room short = record {
  same_size = refl;
  end = omega arith;
  appended = sym (append-nil (content e.buffer));
}
read_to-Stored e (packet bytes) room short =
    rw
      (take_all bytes (get_free_size e.buffer)
        (omega (arith, get_free_size-HasRoom e room, room.0, short)))
      (append_written-store e.buffer bytes (omega (arith, room.0, short)) room.1)

-- The outcome of a piece of the loop that took `bytes` in.
pub record Delivers (e f : Engine) (bytes : List ℕ) : Type 0 where
  pub room : HasRoom f
  pub all_there : delivered f ≡ delivered e ++ bytes

pub hand_over-Delivers :
    (e : Engine) (b : StaticBuffer) (bytes : List ℕ)
    → HasRoom e
    → e.buffer.written + length bytes ≤ size e.buffer
    → Stored e.buffer b bytes
    → Delivers e (hand_over (record e { buffer = b })) bytes
unfolding hand_over
hand_over-Delivers e b bytes room fits s =
    let there : contents e.handed ++ content b ≡ delivered e ++ bytes =
      ap (λ l. contents e.handed ++ l) s.appended
      ∙ sym (append_assoc (contents e.handed) (content e.buffer) bytes) in
    elim (Bool-cases (ltb (get_free_size b) threshold)) [
      | inl full ↦ rw full (record {
        room = (omega (arith, room.0, s.same_size), omega (arith, room.1, s.same_size));
        all_there =
            append-nil (contents (e.handed ++ (b ∷ [])))
            ∙ contents-append e.handed (b ∷ [])
            ∙ ap (λ l. contents e.handed ++ l) (append-nil (content b))
            ∙ there;
      })
      | inr free ↦ rw free (record {
        room = (
          ground (arith, free, room.0, room.1, fits, s.same_size, s.end),
          omega (arith, room.1, s.same_size),
        );
        all_there = there;
      })
    ]

turn-Delivers :
    (arrival : Arrival) (e : Engine)
    → HasRoom e
    → length (arrived arrival) ≤ threshold
    → Delivers e (turn arrival e) (arrived arrival)
unfolding turn
turn-Delivers arrival e room short =
    hand_over-Delivers e (read_to arrival e.buffer) (arrived arrival) room
      (omega (arith, room.0, short)) (read_to-Stored e arrival room short)

-- Where every packet has at most 800 bytes and the buffer, of fewer than 2^64 bytes, has room for
-- one at the start, the loop ends with room for the next, and the bytes of the buffers handed over
-- and of the current one are, in order, those there at the start and those that came in.
pub run-Delivers :
    (arrivals : List Arrival) (e : Engine)
    → HasRoom e
    → All (λ a. length (arrived a) ≤ threshold) arrivals
    → Delivers e (run arrivals e) (all_arrived arrivals)
unfolding run
run-Delivers [] e room short = record { room = room; all_there = sym (append-nil (delivered e)) }
run-Delivers (arrival ∷ arrivals) e room short =
    let one = turn-Delivers arrival e room short.0 in
    let more = run-Delivers arrivals (turn arrival e) one.room short.1 in
    record {
      room = more.room;
      all_there =
          more.all_there
          ∙ ap (λ l. l ++ all_arrived arrivals) one.all_there
          ∙ append_assoc (delivered e) (arrived arrival) (all_arrived arrivals);
    }
