-- ===== src/Parser/Moves.antt =====
-- How far a part of the parser of include/iec_core/iec/iec_parser.h moves: a rule for each
-- statement, and one for sequencing.
use bpf_program.Base.{
  ℕ, ◌+◌, ◌%◌, ◌^◌, ◌≤◌, ◌<◌, ◌≡◌, refl, ◌∙◌, arith, Bool, true, false, if◌then◌else◌, [], ◌∷◌, All,
  All-append,
}
use bpf_program.Buffer.Word.{IsBytes}
use bpf_program.Asdu.{Asdu, IsAsdu}
use bpf_program.Parser.State.{
  ParserState, Outcome, done, rejected, fault, M, continue, ◌>>=◌, return, require, pass, push_back,
}

-- From `s` the offset has moved on by at most `n` bytes, the frame length has lost as many, the
-- buffer's content is the same, and the sequence has got no ill-formed ASDU.
pub record Moved (n : ℕ) (s s' : ParserState) : Type 0 where
  pub count : ℕ
  pub count_le : count ≤ n
  pub offset_eq : s'.buffer.offset ≡ s.buffer.offset + count
  pub bytes_eq : s'.buffer.bytes ≡ s.buffer.bytes
  pub written_eq : s'.buffer.written ≡ s.buffer.written
  pub length_eq : (s'.frame_length + count) % 2 ^ 16 ≡ s.frame_length % 2 ^ 16
  pub asdus : All IsAsdu s.sequence → All IsAsdu s'.sequence

pub Moved-refl : (n : ℕ) (s : ParserState) → Moved n s s
Moved-refl n s = record {
  count = 0;
  count_le = omega arith;
  offset_eq = omega arith;
  bytes_eq = refl;
  written_eq = refl;
  length_eq = omega arith;
  asdus = λ h. h;
}

pub Moved-mono : {n : ℕ} (k : ℕ) {s t : ParserState} → n ≤ k → Moved n s t → Moved k s t
Moved-mono k h p = record {
  count = p.count;
  count_le = omega arith;
  offset_eq = p.offset_eq;
  bytes_eq = p.bytes_eq;
  written_eq = p.written_eq;
  length_eq = p.length_eq;
  asdus = p.asdus;
}

pub Moved-trans : {n k : ℕ} {s t u : ParserState} → Moved n s t → Moved k t u → Moved (n + k) s u
Moved-trans p q = record {
  count = p.count + q.count;
  count_le = omega arith;
  offset_eq = omega arith;
  bytes_eq = q.bytes_eq ∙ p.bytes_eq;
  written_eq = q.written_eq ∙ p.written_eq;
  length_eq = omega arith;
  asdus = λ h. q.asdus (p.asdus h);
}

abbrev pub Post : {A : Type 0} → (A → ParserState → Type 0) → ℕ → ParserState → Outcome A → Type 0
Post Q n s (done a s') = Moved n s s' × Q a s'
Post Q n s (rejected s') = Moved n s s'
Post Q n s fault = ⊥

-- From every state whose offset is `n` or more away from wrapping, `m` ends with no fault, at most
-- `n` bytes further on, and what it returns satisfies `Q`.
pub record Within {A : Type 0} (n : ℕ) (m : M A) (Q : A → ParserState → Type 0) : Type 0 where
  pub run :
      (s : ParserState) → IsBytes s.buffer.bytes → s.buffer.offset + n < 2 ^ 64 → Post Q n s (m s)

abbrev pub Always : {A : Type 0} → A → ParserState → Type 0
Always _ _ = Unit {0}

module _ {A : Type 0} (Q : A → ParserState → Type 0) where
  Post-after :
      {n : ℕ} (k : ℕ) {s t : ParserState} (r : Outcome A)
      → Moved n s t
      → Post Q k t r
      → Post Q (n + k) s r
  Post-after k (done a u) p (q, h) = (Moved-trans p q, h)
  Post-after k (rejected u) p q = Moved-trans p q
  Post-after k fault p q = q

module _ {A B : Type 0} (n k : ℕ) (m : M A) (f : A → M B) (Q : A → Type 0)
    (R : B → ParserState → Type 0) where
  pub Within-bind :
      Within n m (λ a _. Q a) → ((a : A) → Q a → Within k (f a) R) → Within (n + k) (m >>= f) R
  Within-bind first next = record {
    run = λ s bytes small. go s bytes small (m s) (first.run s bytes (omega arith));
  }
    where
      go :
          (s : ParserState)
          → IsBytes s.buffer.bytes
          → s.buffer.offset + (n + k) < 2 ^ 64
          → (r : Outcome A) → Post (λ a _. Q a) n s r
          → Post R (n + k) s (continue f r)
      go s bytes small (done a t) (p, q) =
          Post-after R k (f a t) p ((next a q).run t (rw p.bytes_eq bytes) (omega arith))
      go s bytes small (rejected t) p = Moved-mono (n + k) (omega arith) p
      go s bytes small fault p = p

module _ {A : Type 0} where
  pub Within-mono :
      (n k : ℕ) (m : M A) (Q R : A → ParserState → Type 0)
      → n ≤ k
      → ((a : A) (s : ParserState) → Q a s → R a s)
      → Within n m Q
      → Within k m R
  Within-mono n k m Q R h weaken p = record {
    run = λ s bytes small. go s (m s) (p.run s bytes (omega arith));
  }
    where
      go : (s : ParserState) (r : Outcome A) → Post Q n s r → Post R k s r
      go s (done a t) (q, x) = (Moved-mono k h q, weaken a t x)
      go s (rejected t) q = Moved-mono k h q
      go s fault q = q

  pub Within-if :
      (n : ℕ) (b : Bool) (m k : M A) (Q : A → ParserState → Type 0)
      → (b ≡ true → Within n m Q)
      → (b ≡ false → Within n k Q)
      → Within n (if b then m else k) Q
  Within-if n true m k Q p q = p refl
  Within-if n false m k Q p q = q refl

  pub Within-return :
      (a : A) (Q : A → ParserState → Type 0) → ((s : ParserState) → Q a s) → Within 0 (return a) Q
  Within-return a Q q = record { run = λ s bytes small. (Moved-refl 0 s, q s) }

pub Within-require : (b : Bool) → Within 0 (require b) (λ _ _. b ≡ true)
Within-require true = record { run = λ s bytes small. (Moved-refl 0 s, refl) }
Within-require false = record { run = λ s bytes small. Moved-refl 0 s }

pub Within-guard : (b : Bool) → Within 0 (require b) Always
Within-guard true = record { run = λ s bytes small. (Moved-refl 0 s, tt) }
Within-guard false = record { run = λ s bytes small. Moved-refl 0 s }

pub Within-push_back : (a : Asdu) → IsAsdu a → Within 0 (push_back a) Always
Within-push_back a h = record {
  run = λ s bytes small. (
    record {
      count = 0;
      count_le = omega arith;
      offset_eq = omega arith;
      bytes_eq = refl;
      written_eq = refl;
      length_eq = omega arith;
      asdus = λ all. All-append IsAsdu s.sequence (a ∷ []) all (h, tt);
    },
    tt,
  );
}

pub Within-pass : (n k : ℕ) → k ≤ n → n < 2 ^ 16 → Within n (pass k) Always
Within-pass n k h le = record {
  run = λ s bytes small. (
    record {
      count = k;
      count_le = h;
      offset_eq = omega arith;
      bytes_eq = refl;
      written_eq = refl;
      length_eq = omega arith;
      asdus = λ all. all;
    },
    tt,
  );
}
