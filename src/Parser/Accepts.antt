-- ===== src/Parser/Accepts.antt =====
-- What a part of the parser of include/iec_core/iec/iec_parser.h has read where it accepts: a rule
-- for each statement, and one for sequencing.
pub mod Words
pub mod Then
pub mod Verified
use mathlib.Core.List.{append-nil, append_assoc}
use mathlib.Core.Path.{subst}
use bpf_program.Base.{
  ℕ, zero, suc, ◌+◌, ◌%◌, ◌^◌, ◌≤◌, ◌<◌, ◌≡◌, refl, sym, ap, ◌∙◌, arith, Bool, true, false, List,
  [], ◌∷◌, ◌++◌, if◌then◌else◌, ◌==◌, ==_iff, lt→ltb, length, take, drop, length-take, length-drop,
  drop-drop, All, All-take, All-drop,
}
use bpf_program.Bytes.{ByteOrder, of_be, to_be}
use bpf_program.Buffer.Word.{IsBytes, word_at}
use bpf_program.Asdu.{Asdu}
use bpf_program.Parser.{verify, read_byte, read_word, read_dword, expect}
use bpf_program.Parser.State.{
  ParserState, Outcome, done, rejected, fault, M, continue, ◌>>=◌, ◌>>◌, return, require, pass,
  push_back,
}
use bpf_program.Parser.Reads.{advanced, read_byte-word, read_word-word, read_dword-word}

-- What is read, of which value, with which ASDUs added to the sequence.
abbrev pub Form : Type 0 → Type 1
Form A = A → List ℕ → List Asdu → Type 0

-- Nothing is added to the sequence.
abbrev pub Plain : {A : Type 0} → (A → List ℕ → Type 0) → Form A
Plain P a bs out = P a bs × (out ≡ [])

-- From `s` to `s'` at most `n` bytes were passed, which have the form if they end before the last
-- byte of the array.
pub record Took {A : Type 0} (n : ℕ) (W : Form A) (s : ParserState) (a : A) (s' : ParserState)
    : Type 0 where
  pub count : ℕ
  pub count_le : count ≤ n
  pub offset_eq : s'.buffer.offset ≡ s.buffer.offset + count
  pub bytes_eq : s'.buffer.bytes ≡ s.buffer.bytes
  pub length_eq : (s'.frame_length + count) % 2 ^ 16 ≡ s.frame_length % 2 ^ 16
  pub inside :
      s'.buffer.offset < length s.buffer.bytes
      → (out : List Asdu) × W a (take count (drop s.buffer.offset s.buffer.bytes)) out
        × (s'.sequence ≡ s.sequence ++ out)

abbrev pub IfDone : {A : Type 0} → ℕ → Form A → ParserState → Outcome A → Type 0
IfDone n W s (done a s') = Took n W s a s'
IfDone n W s (rejected _) = Unit
IfDone n W s fault = Unit

pub record Accepts {A : Type 0} (n : ℕ) (m : M A) (W : Form A) : Type 0 where
  pub run :
      (s : ParserState) → IsBytes s.buffer.bytes → s.buffer.offset + n < 2 ^ 64 → IfDone n W s (m s)

take-nil : {A : Type 0} (n : ℕ) → take {A = A} n [] ≡ []
take-nil zero = refl
take-nil (suc n) = refl

take-add : {A : Type 0} (n k : ℕ) (xs : List A) → take (n + k) xs ≡ take n xs ++ take k (drop n xs)
take-add zero k xs = let e : 0 + k ≡ k = omega arith in ap (λ j. take j xs) e
take-add (suc n) k [] = let e : suc n + k ≡ suc (n + k) = omega arith in rw e (sym (take-nil k))
take-add (suc n) k (x ∷ xs) =
    let e : suc n + k ≡ suc (n + k) = omega arith in rw e (ap (◌∷◌ x) (take-add n k xs))

abbrev pub Seq : {A B : Type 0} → Form A → (A → Form B) → Form B
Seq {A} {B} W V b bs out =
    (a : A) × (xs : List ℕ) × (ys : List ℕ) × (o : List Asdu) × (p : List Asdu) × W a xs o
    × V a b ys p
    × (bs ≡ xs ++ ys)
    × (out ≡ o ++ p)

module _ {A B : Type 0} (n k : ℕ) (m : M A) (f : A → M B) (W : Form A) (V : A → Form B) where
  Took-trans :
      {s t u : ParserState} {a : A} {b : B}
      → Took n W s a t
      → Took k (V a) t b u
      → Took (n + k) (Seq W V) s b u
  Took-trans {s} {t} {u} {a} {b} p q = record {
    count = p.count + q.count;
    count_le = omega arith;
    offset_eq = omega arith;
    bytes_eq = q.bytes_eq ∙ p.bytes_eq;
    length_eq = omega arith;
    inside = λ within.
        let (o, w, same) = p.inside (omega arith) in
        let (r, v, same') = q.inside (rw p.bytes_eq within) in
        let moved : drop p.count (drop s.buffer.offset s.buffer.bytes)
            ≡ drop t.buffer.offset t.buffer.bytes =
          drop-drop p.count s.buffer.offset s.buffer.bytes
          ∙ (λ i. drop (sym p.offset_eq i) (sym p.bytes_eq i)) in
        (
          o ++ r,
          (
            a,
            take p.count (drop s.buffer.offset s.buffer.bytes),
            take q.count (drop t.buffer.offset t.buffer.bytes),
            o,
            r,
            w,
            v,
            take-add p.count q.count (drop s.buffer.offset s.buffer.bytes)
                ∙ ap (λ l. take p.count (drop s.buffer.offset s.buffer.bytes) ++ take q.count l)
                    moved,
            refl,
          ),
          same' ∙ ap (λ l. l ++ r) same ∙ append_assoc s.sequence o r,
        );
  }

  pub Accepts-bind :
      Accepts n m W → ((a : A) → Accepts k (f a) (V a)) → Accepts (n + k) (m >>= f) (Seq W V)
  Accepts-bind first next = record {
    run = λ s bytes small. go s bytes small (m s) (first.run s bytes (omega arith));
  }
    where
      go :
          (s : ParserState)
          → IsBytes s.buffer.bytes
          → s.buffer.offset + (n + k) < 2 ^ 64
          → (r : Outcome A) → IfDone n W s r
          → IfDone (n + k) (Seq W V) s (continue f r)
      go s bytes small (done a t) p =
          join_up (f a t) p ((next a).run t (rw p.bytes_eq bytes) (omega arith))
        where
          join_up :
              (r : Outcome B) → Took n W s a t → IfDone k (V a) t r → IfDone (n + k) (Seq W V) s r
          join_up (done b u) p q = Took-trans p q
          join_up (rejected u) p q = tt
          join_up fault p q = tt
      go s bytes small (rejected t) p = tt
      go s bytes small fault p = tt

module _ {A : Type 0} where
  pub Accepts-mono :
      (n k : ℕ) (m : M A) (W V : Form A)
      → n ≤ k
      → ((a : A) (bs : List ℕ) (out : List Asdu) → W a bs out → V a bs out)
      → Accepts n m W
      → Accepts k m V
  Accepts-mono n k m W V h weaken p = record {
    run = λ s bytes small. go s (m s) (p.run s bytes (omega arith));
  }
    where
      go : (s : ParserState) (r : Outcome A) → IfDone n W s r → IfDone k V s r
      go s (done a t) q = record {
        count = q.count;
        count_le = omega arith;
        offset_eq = q.offset_eq;
        bytes_eq = q.bytes_eq;
        length_eq = q.length_eq;
        inside = λ within. let (out, w, same) = q.inside within in (out, weaken a _ out w, same);
      }
      go s (rejected t) q = tt
      go s fault q = tt

  pub Accepts-if :
      (n : ℕ) (b : Bool) (m k : M A) (W : Form A)
      → (b ≡ true → Accepts n m W)
      → (b ≡ false → Accepts n k W)
      → Accepts n (if b then m else k) W
  Accepts-if n true m k W p q = p refl
  Accepts-if n false m k W p q = q refl

  -- Nothing is read.
  abbrev pub Nothing : (A → Type 0) → Form A
  Nothing P a bs out = P a × (bs ≡ []) × (out ≡ [])

  stay :
      (P : A → Type 0) (a : A) (s t : ParserState)
      → P a
      → t.buffer.offset ≡ s.buffer.offset
      → t.buffer.bytes ≡ s.buffer.bytes
      → t.sequence ≡ s.sequence
      → t.frame_length ≡ s.frame_length
      → Took 0 (Nothing P) s a t
  stay P a s t h e e' e'' e3 = record {
    count = 0;
    count_le = omega arith;
    offset_eq = omega arith;
    bytes_eq = e';
    length_eq = omega arith;
    inside = λ within. ([], (h, refl, refl), e'' ∙ sym (append-nil s.sequence));
  }

  pub Accepts-return : (a : A) → Accepts 0 (return a) (Nothing (λ x. x ≡ a))
  Accepts-return a = record { run = λ s bytes small. stay _ a s s refl refl refl refl refl }

pub Accepts-require : (b : Bool) → Accepts 0 (require b) (Nothing (λ _. b ≡ true))
Accepts-require true = record { run = λ s bytes small. stay _ tt s s refl refl refl refl refl }
Accepts-require false = record { run = λ s bytes small. tt }

pub Accepts-push_back :
    (x : Asdu) → Accepts 0 (push_back x) (λ _ bs out. (bs ≡ []) × (out ≡ x ∷ []))
Accepts-push_back x = record {
  run = λ s bytes small. record {
    count = 0;
    count_le = omega arith;
    offset_eq = omega arith;
    bytes_eq = refl;
    length_eq = omega arith;
    inside = λ within. (x ∷ [], (refl, refl), refl);
  };
}

-- What stands in an array at an offset that is far enough from its end.
pub length-inside : (n o : ℕ) (xs : List ℕ) → o + n < length xs → length (take n (drop o xs)) ≡ n
length-inside n o xs h = length-take n (drop o xs) (omega (arith, length-drop o xs))
