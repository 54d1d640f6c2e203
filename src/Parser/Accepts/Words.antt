-- ===== src/Parser/Accepts/Words.antt =====
-- The numbers that the parser of include/iec_core/iec/iec_parser.h reads, and the bytes it passes.
use mathlib.Core.List.{append-nil}
use bpf_program.Base.{
  ℕ, ◌+◌, ◌^◌, ◌≤◌, ◌<◌, ◌≡◌, refl, sym, arith, List, [], ◌∷◌, lt→ltb, length, take, drop, All-take,
  All-drop,
}
use bpf_program.Bytes.{ByteOrder, of_be, to_be}
use bpf_program.Buffer.Word.{IsBytes, word_at}
use bpf_program.Parser.{read_byte, read_word, read_dword}
use bpf_program.Parser.State.{ParserState, done, M, pass}
use bpf_program.Parser.Reads.{advanced, read_byte-word, read_word-word, read_dword-word}
use bpf_program.Parser.Accepts.{Form, Plain, Accepts, length-inside}

pub Accepts-pass :
    (n k : ℕ) → k ≤ n → n < 2 ^ 16 → Accepts n (pass k) (Plain (λ _ bs. length bs ≡ k))
Accepts-pass n k h le = record {
  run = λ s bytes small. record {
    count = k;
    count_le = h;
    offset_eq = omega arith;
    bytes_eq = refl;
    length_eq = omega arith;
    inside = λ within. (
      [],
      (length-inside k s.buffer.offset s.buffer.bytes (omega arith), refl),
      sym (append-nil s.sequence),
    );
  };
}

-- A number in `n` bytes.
abbrev pub Word : ℕ → ℕ → Form ℕ
Word n limit x bs out = (x < limit) × (bs ≡ to_be n x) × (out ≡ [])

Spelled : ℕ → ℕ → Type 0
Spelled n limit =
    (xs : List ℕ) → length xs ≡ n → IsBytes xs → (of_be xs < limit) × (xs ≡ to_be n (of_be xs))

spelled1 : Spelled 1 (2 ^ 8)
unfolding Spelled
spelled1 (a ∷ []) e h = (omega arith, ground arith)
spelled1 xs e h = absurd (omega arith)

spelled2 : Spelled 2 (2 ^ 16)
unfolding Spelled
spelled2 (a ∷ b ∷ []) e h = (omega arith, ground arith)
spelled2 xs e h = absurd (omega arith)

spelled4 : Spelled 4 (2 ^ 32)
unfolding Spelled
spelled4 (a ∷ b ∷ c ∷ d ∷ []) e h = (omega arith, ground arith)
spelled4 xs e h = absurd (omega arith)

Accepts-word :
    (n limit : ℕ) (m : M ℕ)
    → n < 2 ^ 16
    → Spelled n limit
    → ((s : ParserState)
        → IsBytes s.buffer.bytes
        → s.buffer.offset + n < 2 ^ 64
        → m s ≡ done (word_at n s.buffer.bytes s.buffer.offset) (advanced n s))
    → Accepts n m (Word n limit)
unfolding Spelled
Accepts-word n limit m le spelled reads = record {
  run = λ s bytes small. rw (reads s bytes small) (record {
    count = n;
    count_le = omega arith;
    offset_eq = omega arith;
    bytes_eq = refl;
    length_eq = omega arith;
    inside = λ within.
        let o = s.buffer.offset in
        let xs = s.buffer.bytes in
        let here : o + n < length xs = omega arith in
        let (lt, e) =
          spelled (take n (drop o xs)) (length-inside n o xs here)
            (All-take _ n _ (All-drop _ o xs bytes)) in
        ([], rw (lt→ltb (o + n) (length xs) here) (lt, e, refl), sym (append-nil s.sequence));
  });
}

module _ (order : ByteOrder) where
  pub Accepts-read_byte : Accepts 1 (read_byte order) (Word 1 (2 ^ 8))
  Accepts-read_byte =
      Accepts-word 1 (2 ^ 8) (read_byte order) (omega arith) spelled1
        (λ s _ h. read_byte-word order s h)

  pub Accepts-read_word : Accepts 2 (read_word order) (Word 2 (2 ^ 16))
  Accepts-read_word =
      Accepts-word 2 (2 ^ 16) (read_word order) (omega arith) spelled2 (read_word-word order)

  pub Accepts-read_dword : Accepts 4 (read_dword order) (Word 4 (2 ^ 32))
  Accepts-read_dword =
      Accepts-word 4 (2 ^ 32) (read_dword order) (omega arith) spelled4 (read_dword-word order)
