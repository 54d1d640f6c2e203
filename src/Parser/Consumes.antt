-- ===== src/Parser/Consumes.antt =====
-- What a part of the parser of include/iec_core/iec/iec_parser.h does at bytes that it accepts: a
-- rule for each statement, and one for sequencing.
use mathlib.Core.List.{append-nil, append_assoc}
use mathlib.Core.Path.{ap₂}
use bpf_program.Base.{
  ℕ, ◌+◌, ◌%◌, ◌^◌, ◌<◌, ◌≡◌, refl, sym, ap, ◌∙◌, arith, Bool, true, List, [], ◌∷◌, ◌++◌, ◌==◌,
  lt→ltb, length, drop, take-append, length-append, length-drop, drop-append, drop-drop,
}
use bpf_program.Bytes.{ByteOrder, of_be, to_be}
use bpf_program.Buffer.Word.{IsBytes, word_at}
use bpf_program.Asdu.{Asdu}
use bpf_program.Parser.{verify, read_byte, read_word, read_dword, expect}
use bpf_program.Parser.State.{ParserState, done, M, ◌>>=◌, return, require, pass, push_back}
use bpf_program.Parser.Reads.{advanced, read_byte-word, read_word-word, read_dword-word}

-- At the offset stand `bs`, of a frame that has `n` more bytes, and then `rest`.
pub record Ahead (n : ℕ) (s : ParserState) (bs rest : List ℕ) : Type 0 where
  pub drop_eq : drop s.buffer.offset s.buffer.bytes ≡ bs ++ rest
  pub more : 0 < length rest
  pub small : length s.buffer.bytes < 2 ^ 64
  pub bytes : IsBytes s.buffer.bytes
  pub remain : s.frame_length ≡ length bs + n
  pub fits : length bs + n < 2 ^ 16

-- The state behind `k` bytes of the frame that have given the ASDUs `out`.
abbrev pub after : ℕ → ℕ → List Asdu → ParserState → ParserState
after n k out s = record {
  buffer = record s.buffer { offset = s.buffer.offset + k };
  sequence = s.sequence ++ out;
  frame_length = n;
}

pub record Consumes {A : Type 0} (n : ℕ) (m : M A) (bs : List ℕ) (a : A) (out : List Asdu)
    : Type 0 where
  pub run :
      (s : ParserState) (rest : List ℕ)
      → Ahead n s bs rest
      → m s ≡ done a (after n (length bs) out s)

pub Ahead-offset :
    {n : ℕ} {s : ParserState} {bs rest : List ℕ}
    → Ahead n s bs rest
    → s.buffer.offset + length bs < length s.buffer.bytes
Ahead-offset {n} {s} {bs} {rest} h = omega (
  arith,
  ap length h.drop_eq,
  length-drop s.buffer.offset s.buffer.bytes,
  length-append bs rest,
  h.more,
)

Ahead-front :
    {n : ℕ} {s : ParserState} (xs ys : List ℕ) {rest : List ℕ}
    → Ahead n s (xs ++ ys) rest
    → Ahead (length ys + n) s xs (ys ++ rest)
Ahead-front xs ys {rest} h = record {
  drop_eq = h.drop_eq ∙ append_assoc xs ys rest;
  more = omega (arith, h.more, length-append ys rest);
  small = h.small;
  bytes = h.bytes;
  remain = omega (arith, h.remain, length-append xs ys);
  fits = omega (arith, h.fits, length-append xs ys);
}

Ahead-back :
    {n : ℕ} {s : ParserState} (xs ys : List ℕ) {rest : List ℕ} (out : List Asdu)
    → Ahead n s (xs ++ ys) rest
    → Ahead n (after (length ys + n) (length xs) out s) ys rest
Ahead-back {s = s} xs ys {rest} out h = record {
  drop_eq =
      sym (drop-drop (length xs) s.buffer.offset s.buffer.bytes)
      ∙ ap (drop (length xs)) (h.drop_eq ∙ append_assoc xs ys rest)
      ∙ drop-append xs (ys ++ rest);
  more = h.more;
  small = h.small;
  bytes = h.bytes;
  remain = refl;
  fits = omega (arith, h.fits, length-append xs ys);
}

abbrev at_offset : ℕ → List Asdu → ℕ → ParserState → ParserState
at_offset o out n s = record {
  buffer = record s.buffer { offset = o };
  sequence = out;
  frame_length = n;
}

pub at_offset_path :
    (s : ParserState) {o o' : ℕ} {out out' : List Asdu} {n n' : ℕ}
    → o ≡ o'
    → out ≡ out'
    → n ≡ n'
    → at_offset o out n s ≡ at_offset o' out' n' s
at_offset_path s p q r i = at_offset (p i) (q i) (r i) s

pub Consumes-bind :
    {A B : Type 0} {n : ℕ} {m : M A} {xs ys : List ℕ} {a : A} {b : B} {o p : List Asdu}
    (f : A → M B)
    → Consumes (length ys + n) m xs a o
    → Consumes n (f a) ys b p
    → Consumes n (m >>= f) (xs ++ ys) b (o ++ p)
Consumes-bind {n = n} {xs = xs} {ys} {b = b} {o} {p} f first next = record {
  run = λ s rest h. rw (first.run s (ys ++ rest) (Ahead-front xs ys h)) (
      next.run (after (length ys + n) (length xs) o s) rest (Ahead-back xs ys o h)
      ∙ ap (done b) (
          at_offset_path s (omega (arith, length-append xs ys)) (append_assoc s.sequence o p)
            refl));
}

pub Consumes-value :
    {A : Type 0} {n : ℕ} {m : M A} {bs : List ℕ} {a b : A} {o : List Asdu}
    → a ≡ b
    → Consumes n m bs a o
    → Consumes n m bs b o
Consumes-value e c = rw e at c

-- Where nothing is read at the end.
pub Consumes-nil :
    {A : Type 0} {n : ℕ} {m : M A} (bs : List ℕ) {a : A} {o : List Asdu}
    → Consumes n m (bs ++ []) a o
    → Consumes n m bs a o
Consumes-nil bs c = rw append-nil at c

pub Consumes-last :
    {A : Type 0} {n : ℕ} {m : M A} (bs : List ℕ) {a : A} (o : List Asdu)
    → Consumes n m (bs ++ []) a (o ++ [])
    → Consumes n m bs a o
Consumes-last bs o c = rw (append-nil bs, append-nil o) at c

pub Consumes-return : {A : Type 0} (n : ℕ) (a : A) → Consumes n (return a) [] a []
Consumes-return n a = record {
  run = λ s rest h.
      ap (done a)
        (at_offset_path s (omega arith) (sym (append-nil s.sequence)) (h.remain ∙ omega arith));
}

pub Consumes-require : (n : ℕ) (b : Bool) → b ≡ true → Consumes n (require b) [] tt []
Consumes-require n b e = rw e (record { run = λ s rest h. (Consumes-return n tt).run s rest h })

pub Consumes-verify : (n m : ℕ) → (n < 2 ^ 16 → m % 2 ^ 16 ≡ n) → Consumes n (verify m) [] tt []
unfolding verify
Consumes-verify n m e = record {
  run = λ s rest h.
      let same : (s.frame_length == m % 2 ^ 16) ≡ true =
        ground (arith, e (omega (arith, h.fits)), h.remain) in
      rw same ((Consumes-return n tt).run s rest h);
}

pub Consumes-push_back : (n : ℕ) (a : Asdu) → Consumes n (push_back a) [] tt (a ∷ [])
Consumes-push_back n a = record {
  run = λ s rest h. ap (done tt) (at_offset_path s (omega arith) refl (h.remain ∙ omega arith));
}

pub Consumes-pass : (n : ℕ) (bs : List ℕ) → Consumes n (pass (length bs)) bs tt []
Consumes-pass n bs = record {
  run = λ s rest h. ap (done tt) (
      at_offset_path s (omega (arith, Ahead-offset h, h.small)) (sym (append-nil s.sequence))
        (omega (arith, h.remain, h.fits)));
}

-- The word that stands at an offset.
pub word_at-drop :
    (xs : List ℕ) (o : ℕ) (bs rest : List ℕ)
    → drop o xs ≡ bs ++ rest
    → 0 < length rest
    → word_at (length bs) xs o ≡ of_be bs
word_at-drop xs o bs rest e more =
    let inside : o + length bs < length xs =
      omega (arith, ap length e, length-drop o xs, length-append bs rest) in
    rw (lt→ltb (o + length bs) (length xs) inside, e) (ap of_be (take-append bs rest))

-- A read of `k` bytes, by what it does to a state.
Consumes-word :
    (n : ℕ) (m : M ℕ) (bs : List ℕ)
    → ((s : ParserState)
        → IsBytes s.buffer.bytes
        → s.buffer.offset + length bs < 2 ^ 64
        → m s ≡ done (word_at (length bs) s.buffer.bytes s.buffer.offset) (advanced (length bs) s))
    → Consumes n m bs (of_be bs) []
Consumes-word n m bs reads = record {
  run = λ s rest h.
      let inside = Ahead-offset h in
      reads s h.bytes (omega (arith, h.small))
      ∙ ap₂ done (word_at-drop s.buffer.bytes s.buffer.offset bs rest h.drop_eq h.more) (
          at_offset_path s (omega (arith, h.small)) (sym (append-nil s.sequence))
            (omega (arith, h.remain, h.fits)));
}

module _ (order : ByteOrder) where
  pub Consumes-read_byte : (n x : ℕ) → Consumes n (read_byte order) (x ∷ []) x []
  Consumes-read_byte n x =
      let e : of_be (x ∷ []) ≡ x = omega arith in
      rw e at (Consumes-word n (read_byte order) (x ∷ []) (λ s _. read_byte-word order s))

  pub Consumes-read_word : (n x : ℕ) → x < 2 ^ 16 → Consumes n (read_word order) (to_be 2 x) x []
  Consumes-read_word n x h =
      let e : of_be (to_be 2 x) ≡ x = omega arith in
      rw e at (Consumes-word n (read_word order) (to_be 2 x) (read_word-word order))

  pub Consumes-read_dword : (n x : ℕ) → x < 2 ^ 32 → Consumes n (read_dword order) (to_be 4 x) x []
  Consumes-read_dword n x h =
      let e : of_be (to_be 4 x) ≡ x = omega arith in
      rw e at (Consumes-word n (read_dword order) (to_be 4 x) (read_dword-word order))

  pub Consumes-expect : (n x : ℕ) → Consumes n (expect order x) (x ∷ []) tt []
  unfolding expect
  Consumes-expect n x =
      Consumes-bind (λ y. require (y == x)) (Consumes-read_byte _ x)
        (Consumes-require n (x == x) (ground arith))
