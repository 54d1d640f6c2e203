-- ===== src/NativeFilter/Names.antt =====
-- How the filter of benchmarks/common_benchmark/bench_bpf.cpp reads and compares a name.
use bpf_program.Base.{
  ℕ, ◌+◌, ◌*◌, ◌<◌, ◌≡◌, ◌↔◌, refl, sym, ap, ◌∙◌, arith, Bool, true, false, Bool-cases, inl, inr,
  Option, some, List, [], ◌∷◌, ◌++◌, ltb, if◌then◌else◌, length, take, get_elem?, All,
  length-append, take-append, drop-append,
}
use bpf_program.Bytes.{of_be}
use bpf_program.Buffer.{bytes_from}
use bpf_program.Buffer.Reads.{bytes_from-take}
use bpf_program.Text.{c_str}
use bpf_program.NativeFilter.{swapped, same_text, compare_name, same_name}

pub bytes_from-at :
    {xs : List ℕ} (front mid back : List ℕ) (p n : ℕ)
    → xs ≡ front ++ (mid ++ back)
    → length front ≡ p
    → length mid ≡ n
    → bytes_from xs p n ≡ some mid
bytes_from-at front mid back p n e f g =
    rw (e, sym f, sym g)
      (bytes_from-take (length mid) (front ++ (mid ++ back)) (length front)
          (omega (arith, length-append front (mid ++ back), length-append mid back))
        ∙ ap (λ l. some (take (length mid) l)) (drop-append front (mid ++ back))
        ∙ ap some (take-append mid back))

get_elem?-append :
    (front : List ℕ) (m : ℕ) (back : List ℕ)
    → get_elem? (front ++ (m ∷ back)) (length front) ≡ some m
get_elem?-append [] m back = refl
get_elem?-append (x ∷ xs) m back = get_elem?-append xs m back

pub get_elem?-at :
    {xs : List ℕ} (front : List ℕ) (m : ℕ) (back : List ℕ) (p : ℕ)
    → xs ≡ front ++ (m ∷ back)
    → length front ≡ p
    → get_elem? xs p ≡ some m
get_elem?-at front m back p e f = rw (e, sym f) (get_elem?-append front m back)

c_str-same : (id : List ℕ) → All (λ c. 0 < c) id → c_str id ≡ id
c_str-same [] h = refl
c_str-same (c ∷ cs) (h, hs) = ground (arith, h, c_str-same cs hs)

pub same_text_iff : (xs ys : List ℕ) → (same_text xs ys ≡ true) ↔ (xs ≡ ys)
same_text_iff [] [] = (λ _. refl, λ _. refl)
same_text_iff [] (b ∷ ys) = (λ e. cc, λ e. cc)
same_text_iff (a ∷ xs) [] = (λ e. cc, λ e. cc)
same_text_iff (a ∷ xs) (b ∷ ys) = let ih = same_text_iff xs ys in ground (arith, ih)

pub swapped-of_le :
    (a b : ℕ) → a < 256 → b < 256 → swapped (a + 256 * (b + 256 * 0)) ≡ of_be (a ∷ b ∷ [])
swapped-of_le a b h k = omega (arith, h, k)

some-true : (b : Bool) → (some b ≡ some true) ↔ (b ≡ true)
some-true true = (λ _. refl, λ _. refl)
some-true false = (λ e. cc, λ e. cc)

pub if_some :
    (t : Bool) {r : Option Bool} {P : Type 0}
    → (r ≡ some true) ↔ P
    → ((if t then r else some false) ≡ some true) ↔ ((t ≡ true) × P)
if_some true h = (λ e. (refl, h.0 e), λ e. h.1 e.1)
if_some false h = (λ e. absurd (cc), λ e. absurd (cc (e.0)))

length-same_text : (xs ys : List ℕ) → same_text xs ys ≡ true → length xs ≡ length ys
length-same_text xs ys e = ap length ((same_text_iff xs ys).0 e)

pub same_name-at :
    (name xs : List ℕ) (at : ℕ) (id : List ℕ)
    → get_elem? xs at ≡ some (length id)
    → bytes_from xs (at + 1) (length id) ≡ some id
    → All (λ c. 0 < c) id
    → 0 < length name
    → length name < 34
    → (same_name name xs at ≡ some true) ↔ (id ≡ name)
unfolding same_name compare_name
same_name-at name xs at id found read chars least most = elim (Bool-cases (ltb (length id) 34)) [
  | inl small ↦
      rw (found, small, read, c_str-same id chars)
        (
          λ e. (same_text_iff id name).0 ((some-true (same_text id name)).0 e),
          λ e. ap some ((same_text_iff id name).1 e),
        )
  | inr long ↦
      rw (found, long)
        (
          λ e. absurd (
              omega (arith, least, length-same_text [] name ((some-true (same_text [] name)).0 e))),
          λ e. absurd (ground (arith, long, most, ap length e)),
        )
]
