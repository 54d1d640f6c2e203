-- ===== src/Parser/Accepts/Verified.antt =====
-- The lengths that the parser of include/iec_core/iec/iec_parser.h verifies.
use bpf_program.Base.{ℕ, ◌%◌, ◌^◌, ◌≡◌, refl, arith, Bool, true, false, ◌==◌, ==_iff, length}
use bpf_program.Parser.{verify}
use bpf_program.Parser.State.{
  ParserState, Outcome, done, rejected, fault, M, continue, ◌>>=◌, ◌>>◌, require,
}
use bpf_program.Parser.Accepts.{Form, IfDone, Accepts, length-inside}

abbrev pub IfEmpty : {A : Type 0} → Outcome A → Type 0
IfEmpty (done _ t) = t.frame_length ≡ 0
IfEmpty (rejected _) = Unit
IfEmpty fault = Unit

-- Where it is done, the frame has no more bytes.
pub record EndsEmpty {A : Type 0} (m : M A) : Type 0 where
  pub run : (s : ParserState) → IfEmpty (m s)

pub EndsEmpty-bind :
    {A B : Type 0} (m : M A) (f : A → M B) → ((a : A) → EndsEmpty (f a)) → EndsEmpty (m >>= f)
EndsEmpty-bind {A} {B} m f h = record { run = λ s. go (m s) }
  where
    go : (r : Outcome A) → IfEmpty (continue f r)
    go (done a t) = (h a).run t
    go (rejected t) = tt
    go fault = tt

pub EndsEmpty-verify : EndsEmpty (verify 0)
unfolding verify
EndsEmpty-verify = record { run = λ s. go s (s.frame_length == 0) refl }
  where
    go : (s : ParserState) (b : Bool) → (s.frame_length == 0) ≡ b → IfEmpty (require b s)
    go s true e = (==_iff s.frame_length 0).0 e
    go s false e = tt

module _ {B : Type 0} where
  -- A length that is verified in front of a part that ends with the frame.
  pub Accepts-verify-then :
      (n k : ℕ) (m : M B) (V : Form B)
      → EndsEmpty m
      → Accepts k m V
      → Accepts k (verify n >> m) (λ b bs out. (length bs % 2 ^ 16 ≡ n % 2 ^ 16) × V b bs out)
  unfolding verify
  Accepts-verify-then n k m V ends p = record {
    run = λ s bytes small.
        go s (s.frame_length == n % 2 ^ 16) refl (ends.run s) (p.run s bytes small);
  }
    where
      finish :
          (s : ParserState)
          → (s.frame_length == n % 2 ^ 16) ≡ true
          → (r : Outcome B) → IfEmpty r
          → IfDone k V s r
          → IfDone k (λ b bs out. (length bs % 2 ^ 16 ≡ n % 2 ^ 16) × V b bs out) s r
      finish s e (done b t) empty q =
          let same : s.frame_length ≡ n % 2 ^ 16 = (==_iff s.frame_length (n % 2 ^ 16)).0 e in
          record {
            count = q.count;
            count_le = q.count_le;
            offset_eq = q.offset_eq;
            bytes_eq = q.bytes_eq;
            length_eq = q.length_eq;
            inside = λ within.
                let (out, v, same_out) = q.inside within in
                (
                  out,
                  (
                    omega (
                      arith,
                      length-inside q.count s.buffer.offset s.buffer.bytes (omega arith),
                      empty,
                      same,
                      q.length_eq,
                    ),
                    v,
                  ),
                  same_out,
                );
          }
      finish s e (rejected t) empty q = tt
      finish s e fault empty q = tt

      go :
          (s : ParserState) (c : Bool)
          → (s.frame_length == n % 2 ^ 16) ≡ c
          → IfEmpty (m s)
          → IfDone k V s (m s)
          → IfDone k
              (λ b bs out. (length bs % 2 ^ 16 ≡ n % 2 ^ 16) × V b bs out)
              s
              (continue (λ _. m) (require c s))
      go s true e empty q = finish s e (m s) empty q
      go s false e empty q = tt
