-- ===== src/Parser/Lengths.antt =====
-- What the parser of include/iec_core/iec/iec_parser.h accepts as the length of a field.
use mathlib.Core.Path.{subst}
use bpf_program.Base.{
  ℕ, zero, suc, ◌+◌, ◌*◌, ◌%◌, ◌^◌, ◌≤◌, ◌<◌, ◌≡◌, ◌⊎◌, inl, inr, refl, sym, ap, ◌∙◌, arith, true,
  List, [], ◌∷◌, ◌++◌, ◌==◌, ==_iff, bit_and, ltb, if◌then◌else◌, length, every_below,
  every_below-at, length-append, ltb→lt,
}
use bpf_program.Bytes.{ByteOrder, of_be}
use bpf_program.Buffer.Word.{IsBytes}
use bpf_program.Parser.{read_byte, asn_bytes, parse_asn_length}
use bpf_program.Parser.State.{return}
use bpf_program.Parser.Accepts.{Form, Accepts, Accepts-mono, Accepts-return, Accepts-if, Plain}
use bpf_program.Parser.Accepts.Words.{Accepts-read_byte}
use bpf_program.Parser.Accepts.Then.{Accepts-word-then}

-- What the loop of `parseAsnLength` makes of the digits, from a value on.
unfoldable pub asn_value : ℕ → List ℕ → ℕ
asn_value total [] = total
asn_value total (x ∷ []) = (total + x) % 2 ^ 32
asn_value total (x ∷ y ∷ rest) = asn_value (((total + x) % 2 ^ 32 * 2 ^ 8) % 2 ^ 32) (y ∷ rest)

pub asn_value-step :
    (total x : ℕ) (ys : List ℕ)
    → asn_value
        (if ltb 0 (length ys)
          then ((total + x) % 2 ^ 32 * 2 ^ 8) % 2 ^ 32
          else (total + x) % 2 ^ 32)
        ys
      ≡ asn_value total (x ∷ ys)
unfolding asn_value
asn_value-step total x [] = refl
asn_value-step total x (y ∷ ys) = ground arith

pub asn_value-of_be : (ds : List ℕ) → length ds ≤ 4 → IsBytes ds → asn_value 0 ds ≡ of_be ds
unfolding asn_value
asn_value-of_be [] h b = refl
asn_value-of_be (x ∷ []) h b = omega arith
asn_value-of_be (x ∷ y ∷ []) h b = omega arith
asn_value-of_be (x ∷ y ∷ z ∷ []) h b = omega arith
asn_value-of_be (x ∷ y ∷ z ∷ w ∷ []) h b = omega arith
asn_value-of_be (x ∷ y ∷ z ∷ w ∷ v ∷ ds) h b = absurd (omega arith)

-- A length in ASN.1 basic encoding: a byte below 128, or the number of digits and the digits.
pub data IsLength : ℕ → List ℕ → Type 0 where
  short : (n : ℕ) (bs : List ℕ) → n < 128 → bs ≡ n ∷ [] → IsLength n bs
  long :
      (n : ℕ) (bs ds : List ℕ)
      → length ds ≤ 4
      → IsBytes ds
      → bs ≡ (128 + length ds) ∷ ds
      → n ≡ of_be ds
      → IsLength n bs

abbrev pub LengthOrNone : ℕ → List ℕ → Type 0
LengthOrNone n bs = (n ≡ 0) ⊎ IsLength n bs

-- A field's length and what it counts; `verify` takes the length as a `u16`.
abbrev pub Counted : (bs content : List ℕ) → Type 0
Counted bs content =
    (n : ℕ) × (digits : List ℕ) × IsLength n digits
    × (length content ≡ n % 2 ^ 16)
    × (bs ≡ digits ++ content)

pub Counted-verified :
    (n : ℕ) (digits bs content : List ℕ)
    → LengthOrNone n digits
    → length content % 2 ^ 16 ≡ n % 2 ^ 16
    → 0 < length content
    → length content < 2 ^ 16
    → bs ≡ digits ++ content
    → Counted bs content
Counted-verified n digits bs content (inl e) same least most split = absurd (omega arith)
Counted-verified n digits bs content (inr h) same least most split =
    (n, digits, h, omega arith, split)

length-IsLength : (n : ℕ) (bs : List ℕ) → IsLength n bs → length bs ≤ 5
length-IsLength n bs (short _ _ h e) = omega (arith, ap length e)
length-IsLength n bs (long _ _ ds most all e v) = omega (arith, ap length e, most)

pub Counted-le : (bs content : List ℕ) → Counted bs content → length bs ≤ 5 + length content
Counted-le bs content (n, digits, h, _, e) =
    omega (arith, ap length e, length-append digits content, length-IsLength n digits h)

long_table :
    every_below (λ x. if bit_and x 0x80 == 0 then ltb x 128 else (x == 128 + bit_and x 0x7f)) 256
    ≡ true
unfolding every_below
long_table = refl

module _ (order : ByteOrder) where
  Accepts-asn_bytes :
      (left total : ℕ)
      → Accepts left
          (asn_bytes order left total)
          (Plain (λ n bs. IsBytes bs × (length bs ≡ left) × (n ≡ asn_value total bs)))
  unfolding asn_bytes asn_value
  Accepts-asn_bytes zero total =
      Accepts-mono 0 0 _ _ _ (omega arith)
        (λ n bs out (same, e, e').
          subst (λ l. (IsBytes l × (length l ≡ 0) × (n ≡ asn_value total l)) × (out ≡ [])) (sym e)
            ((tt, refl, same), e'))
        (Accepts-return total)
  Accepts-asn_bytes (suc left) total =
      Accepts-mono (1 + left) (suc left) _ _ _ (omega arith)
        (λ n bs out (x, ys, lt, e, ((h, len, same), e')).
          let byte : x % 256 ≡ x = omega (arith, lt) in
          let found : bs ≡ x ∷ ys = e ∙ ap (λ z. z ∷ ys) byte in
          let all =
            same
            ∙ ap
                (λ k.
                  asn_value
                    (if ltb 0 k
                      then ((total + x) % 2 ^ 32 * 2 ^ 8) % 2 ^ 32
                      else (total + x) % 2 ^ 32)
                    ys)
                (sym len)
            ∙ asn_value-step total x ys in
          subst (λ l. (IsBytes l × (length l ≡ suc left) × (n ≡ asn_value total l)) × (out ≡ []))
            (sym found) (((lt, h), omega (arith, len), all), e'))
        (Accepts-word-then 1 (2 ^ 8) left (read_byte order) _ _ (Accepts-read_byte order)
          (λ x. Accepts-asn_bytes left _))

  -- Behind the first byte.
  abbrev Behind : ℕ → Form ℕ
  Behind first n ys out = (first < 2 ^ 8 → LengthOrNone n (first ∷ ys)) × (out ≡ [])

  first-of_table :
      (x : ℕ)
      → x < 2 ^ 8
      → (if bit_and x 0x80 == 0 then ltb x 128 else (x == 128 + bit_and x 0x7f)) ≡ true
  first-of_table x lt =
      every_below-at (λ y. if bit_and y 0x80 == 0 then ltb y 128 else (y == 128 + bit_and y 0x7f))
        256 x lt long_table

  pub Accepts-length : Accepts 5 (parse_asn_length order) (Plain LengthOrNone)
  unfolding parse_asn_length
  Accepts-length =
      Accepts-mono (1 + 4) 5 _ _ _ (omega arith)
        (λ n bs out (x, ys, lt, e, (h, e')).
          let byte : x % 256 ≡ x = omega (arith, lt) in
          (subst (λ l. LengthOrNone n l) (sym (e ∙ ap (λ z. z ∷ ys) byte)) (h lt), e'))
        (Accepts-word-then 1 (2 ^ 8) 4 (read_byte order) _ Behind (Accepts-read_byte order) (λ x.
          Accepts-if 4 (bit_and x 0x80 == 0) (return x)
            (if ltb 4 (bit_and x 0x7f) then return 0 else asn_bytes order (bit_and x 0x7f) 0)
            (Behind x)
            (λ on.
              Accepts-mono 0 4 (return x) _ (Behind x) (omega arith)
                (λ n ys out (same, e, e'). (
                  λ lt.
                      let small : ltb x 128 ≡ true = rw on at (first-of_table x lt) in
                      inr (
                        short n (x ∷ ys) (omega (arith, ltb→lt x 128 small, same))
                          (λ i. sym same i ∷ e i)),
                  e',
                ))
                (Accepts-return x))
            (λ off.
              Accepts-if 4 (ltb 4 (bit_and x 0x7f)) (return 0) (asn_bytes order (bit_and x 0x7f) 0)
                (Behind x)
                (λ many.
                  Accepts-mono 0 4 (return 0) _ (Behind x) (omega arith)
                    (λ n ys out (same, e, e'). (λ lt. inl same, e')) (Accepts-return 0))
                (λ few.
                  let k = bit_and x 0x7f in
                  Accepts-mono k 4 (asn_bytes order k 0) _ (Behind x) (ground (arith, few))
                    (λ n ys out ((h, len, same), e'). (
                      λ lt.
                          let it : (x == 128 + k) ≡ true = rw off at (first-of_table x lt) in
                          let most : length ys ≤ 4 = ground (arith, few, len) in
                          let x_eq : x ≡ 128 + length ys =
                            (==_iff x (128 + k)).0 it ∙ ap (λ z. 128 + z) (sym len) in
                          inr (
                            long n (x ∷ ys) ys most h (ap (λ z. z ∷ ys) x_eq)
                              (same ∙ asn_value-of_be ys most h)),
                      e',
                    ))
                    (Accepts-asn_bytes k 0)))))
