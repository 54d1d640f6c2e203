-- ===== src/FastFile/Numbers.antt =====
-- The numbers written to a `utils::FastFile` (include/iec_core/utils/fast_file.h) can be read back.
use mathlib.Core.List.{append_assoc, append-nil}
use bpf_program.Base.{
  true_and, ℕ, zero, suc, ◌+◌, ◌-◌, ◌*◌, ◌/◌, ◌%◌, ◌≤◌, ◌<◌, ◌≡◌, refl, sym, ap, ◌∙◌, arith, Bool,
  true, false, Bool-cases, inl, inr, ◌&&◌, Option, none, some, List, [], ◌∷◌, ◌++◌, ltb, ◌==◌,
  if◌then◌else◌, All, All-append,
}
use bpf_program.Base.Int.{ℤ, pos, negsuc}
use bpf_program.Text.{c_str}
use bpf_program.FastFile.{
  Stdio, digits, to_string, sought, new, write_text, write_string, write_number,
}

-- What stdio promises: `content file w` are the characters of the open file, and `stored name w`
-- those of the file of a name.
pub record IsStdio {W : Type 0} (io : Stdio W) : Type 0 where
  pub content : ℕ → W → List ℕ
  pub stored : List ℕ → W → List ℕ
  pub content-fopen :
      (name : List ℕ) (w v : W) (file : ℕ)
      → io.fopen_append name w ≡ (some file, v)
      → content file v ≡ stored name w
  pub content-fseek : (file : ℕ) (w : W) → content file (io.fseek_end file w) ≡ content file w
  pub content-fputs :
      (text : List ℕ) (file : ℕ) (w : W)
      → (io.fputs text file w).0 ≡ true
      → content file (io.fputs text file w).1 ≡ content file w ++ text

abbrev pub signed : Bool → ℕ → ℤ
signed false n = pos n
signed true zero = pos 0
signed true (suc n) = negsuc n

-- A reader of lines of decimal digits, which a minus may be before, at whether there was one and
-- the value of the digits so far.
unfoldable pub read_numbers : Bool → ℕ → List ℕ → List ℤ
read_numbers negative acc [] = []
read_numbers negative acc (c ∷ cs) =
    let done = signed negative acc ∷ read_numbers false 0 cs in
    let minus = read_numbers true acc cs in
    let more = read_numbers negative (10 * acc + (c - b'0')) cs in
    if c == 10 then done else if c == b'-' then minus else more

abbrev value : ℕ → List ℕ → ℕ
value acc [] = acc
value acc (c ∷ cs) = value (10 * acc + (c - b'0')) cs

abbrev IsDigit : ℕ → Type 0
IsDigit c = (b'0' ≤ c) × (c ≤ b'9')

value-append :
    (acc : ℕ) (cs : List ℕ) (c : ℕ) → value acc (cs ++ (c ∷ [])) ≡ 10 * value acc cs + (c - b'0')
value-append acc [] c = refl
value-append acc (d ∷ ds) c = value-append (10 * acc + (d - b'0')) ds c

digits-IsDigit : (fuel n : ℕ) → All IsDigit (digits fuel n)
unfolding digits
digits-IsDigit zero n = tt
digits-IsDigit (suc fuel) n = elim (Bool-cases (ltb n 10)) [
  | inl small ↦ rw small (ground (arith, small), tt)
  | inr large ↦ rw large (
      All-append IsDigit (digits fuel (n / 10)) ((b'0' + n % 10) ∷ [])
        (digits-IsDigit fuel (n / 10)) (omega arith, tt))
]

value-digits : (fuel n : ℕ) → n < fuel → value 0 (digits fuel n) ≡ n
unfolding digits
value-digits zero n h = absurd (omega arith)
value-digits (suc fuel) n h = elim (Bool-cases (ltb n 10)) [
  | inl small ↦ rw small (omega arith)
  | inr large ↦ rw large (
      value-append 0 (digits fuel (n / 10)) (b'0' + n % 10)
      ∙ ground (arith, large, value-digits fuel (n / 10)))
]

read_numbers-line :
    (negative : Bool) (acc : ℕ) (ds rest : List ℕ)
    → All IsDigit ds
    → read_numbers negative acc (ds ++ (10 ∷ rest))
      ≡ signed negative (value acc ds) ∷ read_numbers false 0 rest
unfolding read_numbers
read_numbers-line negative acc [] rest h = refl
read_numbers-line negative acc (d ∷ ds) rest (h, hs) =
    ground (arith, read_numbers-line negative (10 * acc + (d - b'0')) ds rest hs)

read_numbers-to_string :
    (n : ℤ) (rest : List ℕ)
    → read_numbers false 0 (to_string n ++ (10 ∷ rest)) ≡ n ∷ read_numbers false 0 rest
unfolding to_string read_numbers
read_numbers-to_string (pos n) rest =
    read_numbers-line false 0 (digits (suc n) n) rest (digits-IsDigit (suc n) n)
    ∙ ap (λ k. pos k ∷ read_numbers false 0 rest) (value-digits (suc n) n (omega arith))
read_numbers-to_string (negsuc n) rest =
    let ds = digits (suc (suc n)) (suc n) in
    read_numbers-line true 0 ds rest (digits-IsDigit (suc (suc n)) (suc n))
    ∙ ap (λ k. signed true k ∷ read_numbers false 0 rest)
        (value-digits (suc (suc n)) (suc n) (omega arith))

abbrev lines : List ℤ → List ℕ
lines [] = []
lines (n ∷ ns) = to_string n ++ (10 ∷ lines ns)

read_numbers-lines : (ns : List ℤ) → read_numbers false 0 (lines ns) ≡ ns
unfolding read_numbers
read_numbers-lines [] = refl
read_numbers-lines (n ∷ ns) =
    read_numbers-to_string n (lines ns) ∙ ap (◌∷◌ n) (read_numbers-lines ns)

c_str-string : (text : List ℕ) → All (λ c. 0 < c) text → c_str (text ++ (0 ∷ [])) ≡ text
c_str-string [] h = refl
c_str-string (c ∷ cs) (h, hs) = ground (arith, h, c_str-string cs hs)

line-positive : (ds : List ℕ) → All IsDigit ds → All (λ c. 0 < c) (ds ++ (10 ∷ []))
line-positive [] h = (omega arith, tt)
line-positive (d ∷ ds) (h, hs) = (omega (arith, h.0), line-positive ds hs)

to_string-positive : (n : ℤ) → All (λ c. 0 < c) (to_string n ++ (10 ∷ []))
unfolding to_string
to_string-positive (pos n) = line-positive (digits (suc n) n) (digits-IsDigit (suc n) n)
to_string-positive (negsuc n) = (
  omega arith,
  line-positive (digits (suc (suc n)) (suc n)) (digits-IsDigit (suc (suc n)) (suc n)),
)

module _ {W : Type 0} (io : Stdio W) where
  -- The calls of `write` with a number each, and whether all have succeeded.
  abbrev pub write_all : List ℤ → ℕ → W → Bool × W
  write_all [] file w = (true, w)
  write_all (n ∷ ns) file w =
      let one = write_number io n file w in
      let more = write_all ns file one.1 in (one.0 && more.0, more.1)

  module _ (is : IsStdio io) where
    content-write_number :
        (n : ℤ) (file : ℕ) (w : W)
        → (write_number io n file w).0 ≡ true
        → is.content file (write_number io n file w).1
          ≡ is.content file w ++ (to_string n ++ (10 ∷ []))
    unfolding write_number write_string write_text
    content-write_number n file w e =
        let text = to_string n ++ (10 ∷ []) in
        let same = c_str-string text (to_string-positive n) in
        is.content-fputs (c_str (text ++ (0 ∷ []))) file w e ∙ ap (λ t. is.content file w ++ t) same

    content-write_all :
        (ns : List ℤ) (file : ℕ) (w : W)
        → (write_all ns file w).0 ≡ true
        → is.content file (write_all ns file w).1 ≡ is.content file w ++ lines ns
    content-write_all [] file w e = sym (append-nil (is.content file w))
    content-write_all (n ∷ ns) file w e =
        let both = true_and (write_number io n file w).0 _ in
        content-write_all ns file (write_number io n file w).1 ((both.0 e).1)
        ∙ ap (λ l. l ++ lines ns) (content-write_number n file w ((both.0 e).0))
        ∙ append_assoc (is.content file w) (to_string n ++ (10 ∷ [])) (lines ns)
        ∙ ap (λ l. is.content file w ++ l) (append_assoc (to_string n) (10 ∷ []) (lines ns))

    content-new :
        (name : List ℕ) (file : ℕ) (w v : W) (r : Option ℕ × W)
        → io.fopen_append name w ≡ r
        → sought io r ≡ some (file, v)
        → is.content file v ≡ is.stored name w
    content-new name file w v (none, u) o e = cc
    content-new name file w v (some file', u) o e =
        let same : file' ≡ file = cc in
        let ended : io.fseek_end file' u ≡ v = cc in
        rw (← same, ← ended) (is.content-fseek file' u ∙ is.content-fopen name w u file' o)

    -- Where the file of the name is empty or not there, and can be opened, a reader of lines of
    -- digits and minuses gets back the integers that were written to it one by one, if every call of `write`
    -- has returned true.
    pub read_numbers-write_all :
        (name : List ℕ) (ns : List ℤ) (file : ℕ) (w v : W)
        → new io name w ≡ some (file, v)
        → is.stored name w ≡ []
        → (write_all ns file v).0 ≡ true
        → read_numbers false 0 (is.content file (write_all ns file v).1) ≡ ns
    unfolding new
    read_numbers-write_all name ns file w v opened nothing good =
        ap (read_numbers false 0) (
          content-write_all ns file v good
          ∙ ap (λ l. l ++ lines ns)
              (content-new name file w v (io.fopen_append name w) refl opened ∙ nothing))
        ∙ read_numbers-lines ns
