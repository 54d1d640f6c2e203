-- ===== src/Parser/Accepts/Then.antt =====
-- What the steps of the parser of include/iec_core/iec/iec_parser.h read one after the other.
use mathlib.Core.Path.{subst}
use bpf_program.Base.{
  ℕ, ◌+◌, ◌%◌, ◌^◌, ◌<◌, ◌≡◌, refl, sym, ap, ◌∙◌, arith, Bool, true, false, List, [], ◌∷◌, ◌++◌,
  ◌==◌, ==_iff,
}
use bpf_program.Bytes.{ByteOrder, to_be}
use bpf_program.Asdu.{Asdu}
use bpf_program.Parser.{read_byte, expect}
use bpf_program.Parser.State.{M, ◌>>=◌, ◌>>◌, require}
use bpf_program.Parser.Accepts.{
  Form, Plain, Accepts, Seq, Accepts-bind, Accepts-mono, Nothing, Accepts-require,
}
use bpf_program.Parser.Accepts.Words.{Word, Accepts-read_byte}

-- A number first, and then what the rest reads.
abbrev pub WordThen : {B : Type 0} → ℕ → ℕ → (ℕ → Form B) → Form B
WordThen n limit V b bs out =
    (x : ℕ) × (ys : List ℕ) × (x < limit) × (bs ≡ to_be n x ++ ys) × V x b ys out

abbrev pub Then : {A B : Type 0} → (A → List ℕ → Type 0) → (A → Form B) → Form B
Then {A} P V b bs out =
    (a : A) × (xs : List ℕ) × (ys : List ℕ) × P a xs × (bs ≡ xs ++ ys) × V a b ys out

-- One byte first, which has one value.
abbrev pub ByteThen : {B : Type 0} → ℕ → Form B → Form B
ByteThen x V b bs out = (ys : List ℕ) × (bs ≡ x ∷ ys) × V b ys out

module _ {B : Type 0} where
  pub Accepts-word-then :
      (n limit k : ℕ) (m : M ℕ) (f : ℕ → M B) (V : ℕ → Form B)
      → Accepts n m (Word n limit)
      → ((x : ℕ) → Accepts k (f x) (V x))
      → Accepts (n + k) (m >>= f) (WordThen n limit V)
  Accepts-word-then n limit k m f V p q =
      Accepts-mono (n + k) (n + k) (m >>= f) (Seq (Word n limit) V) (WordThen n limit V)
        (omega arith) go (Accepts-bind n k m f (Word n limit) V p q)
    where
      go :
          (b : B) (bs : List ℕ) (out : List Asdu)
          → Seq (Word n limit) V b bs out
          → WordThen n limit V b bs out
      go b bs out (x, xs, ys, o, r, (lt, e, e'), v, e2, e3) =
          let same : r ≡ out = sym (e3 ∙ ap (λ l. l ++ r) e') in
          (x, ys, lt, e2 ∙ ap (λ l. l ++ ys) e, subst (V x b ys) same v)

  pub Accepts-require-then :
      (c : Bool) (k : ℕ) (m : M B) (V : Form B)
      → (c ≡ true → Accepts k m V)
      → Accepts k (require c >> m) (λ b bs out. (c ≡ true) × V b bs out)
  Accepts-require-then true k m V p = record {
    run =
        (Accepts-mono k k m V (λ b bs out. (true ≡ true) × V b bs out) (omega arith)
          (λ b bs out v. (refl, v)) (p refl)).run;
  }
  Accepts-require-then false k m V p = record { run = λ s bytes small. tt }

module _ {A B : Type 0} where
  pub Accepts-then :
      (n k : ℕ) (m : M A) (f : A → M B) (P : A → List ℕ → Type 0) (V : A → Form B)
      → Accepts n m (Plain P)
      → ((a : A) → Accepts k (f a) (V a))
      → Accepts (n + k) (m >>= f) (Then P V)
  Accepts-then n k m f P V p q =
      Accepts-mono (n + k) (n + k) (m >>= f) (Seq (Plain P) V) (Then P V) (omega arith) go
        (Accepts-bind n k m f (Plain P) V p q)
    where
      go : (b : B) (bs : List ℕ) (out : List Asdu) → Seq (Plain P) V b bs out → Then P V b bs out
      go b bs out (a, xs, ys, o, r, (h, e'), v, e2, e3) =
          let same : r ≡ out = sym (e3 ∙ ap (λ l. l ++ r) e') in
          (a, xs, ys, h, e2, subst (V a b ys) same v)

module _ (order : ByteOrder) where
  pub Accepts-expect : (x : ℕ) → Accepts 1 (expect order x) (λ _ bs out. (bs ≡ x ∷ []) × (out ≡ []))
  unfolding expect
  Accepts-expect x = Accepts-mono (1 + 0) 1 (expect order x) _ _ (omega arith) go (
      Accepts-word-then 1 (2 ^ 8) 0 (read_byte order) (λ y. require (y == x))
        (λ y. Nothing (λ _. y == x ≡ true)) (Accepts-read_byte order)
        (λ y. Accepts-require (y == x)))
    where
      go :
          (a : Unit {0}) (bs : List ℕ) (out : List Asdu)
          → WordThen 1 (2 ^ 8) (λ y. Nothing (λ _. y == x ≡ true)) a bs out
          → (bs ≡ x ∷ []) × (out ≡ [])
      go a bs out (y, ys, lt, e, (same, e', e'')) =
          let it : y ≡ x = (==_iff y x).0 same in
          let small : y % 256 ≡ x = omega (arith, it, lt) in
          (e ∙ ap (λ l. (y % 256) ∷ l) e' ∙ ap (λ z. z ∷ []) small, e'')

  module _ {B : Type 0} where
    pub Accepts-expect-then :
        (x k : ℕ) (m : M B) (V : Form B)
        → Accepts k m V
        → Accepts (1 + k) (expect order x >> m) (ByteThen x V)
    Accepts-expect-then x k m V p =
        Accepts-mono (1 + k) (1 + k) (expect order x >> m) _ (ByteThen x V) (omega arith)
          (λ b bs out (_, xs, ys, e, e', v). (ys, e' ∙ ap (λ l. l ++ ys) e, v))
          (Accepts-then 1 k (expect order x) (λ _. m) (λ _ bs. bs ≡ x ∷ []) (λ _. V)
            (Accepts-expect x) (λ _. p))
