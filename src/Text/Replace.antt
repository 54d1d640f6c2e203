-- ===== src/Text/Replace.antt =====
-- `replace_all` and `remove_all` of src/iec_core/utils/helpers.cpp against the scan.
use bpf_program.Base.{
  ℕ, zero, suc, ◌+◌, ◌<◌, ◌≡◌, refl, sym, ap, ◌∙◌, Option, none, some, List, [], ◌∷◌, ◌++◌, ◌==◌,
  if◌then◌else◌, length, take-append, drop-append, drop-drop, Bool-cases, inl, inr, arith,
  length-append, le→ltb,
}
use mathlib.Core.List.{append_assoc}
use bpf_program.Text.{
  search, starts_with, find, replace, replace_at, replace_from, replace_all, remove_all,
}
use bpf_program.Text.Search.{scan, Answer, search-Answer}

find-search :
    (pre rest what : List ℕ) → find (pre ++ rest) what (length pre) ≡ search what rest (length pre)
unfolding find
find-search pre rest what =
    rw
      (
        le→ltb (length (pre ++ rest)) (length pre) (omega (arith, length-append pre rest)),
        drop-append pre rest,
      )
      refl

-- `std::string::replace` at an occurrence.
replace-middle :
    (pre what back with_text : List ℕ)
    → replace (pre ++ (what ++ back)) (length pre) (length what) with_text
      ≡ pre ++ (with_text ++ back)
replace-middle pre what back with_text =
    rw
      (
        take-append pre (what ++ back),
        sym (drop-drop (length what) (length pre) (pre ++ (what ++ back))),
        drop-append pre (what ++ back),
        drop-append what back,
      )
      refl

module _ (w : ℕ) (ws with_text : List ℕ) where
  abbrev what : List ℕ
  what = w ∷ ws

  replace_found :
      (fuel : ℕ) (pre rest : List ℕ) (o : Option ℕ)
      → ((pre rest : List ℕ)
          → length rest < fuel
          → replace_from what with_text fuel (pre ++ rest) (length pre)
            ≡ some (pre ++ scan what with_text 0 rest))
      → Answer what with_text rest (length pre) o
      → length rest < suc fuel
      → replace_at (replace_from what with_text fuel) what with_text (pre ++ rest) o
        ≡ some (pre ++ scan what with_text 0 rest)
  unfolding Answer
  replace_found fuel pre rest none next a h = ap (λ l. some (pre ++ l)) (sym a)
  replace_found fuel pre rest (some at) next a h =
      let before = pre ++ a.front in
      let whole : pre ++ rest ≡ before ++ (what ++ a.back) =
        ap (λ l. pre ++ l) a.whole ∙ sym (append_assoc pre a.front (what ++ a.back)) in
      let place : at ≡ length before = omega (arith, a.place, length-append pre a.front) in
      let after : replace (pre ++ rest) at (length what) with_text ≡ before ++ with_text ++ a.back =
        rw (whole, place)
          (replace-middle before what a.back with_text
            ∙ sym (append_assoc before with_text a.back)) in
      let pos : at + length with_text ≡ length (before ++ with_text) =
        omega (arith, place, length-append before with_text) in
      let fewer : length a.back < fuel = omega (
        arith,
        h,
        ap length a.whole,
        length-append a.front (what ++ a.back),
        length-append what a.back,
      ) in
      rw (after, pos)
        (next (before ++ with_text) a.back fewer
          ∙ ap some (
              append_assoc before with_text (scan what with_text 0 a.back)
              ∙ append_assoc pre a.front (with_text ++ scan what with_text 0 a.back)
              ∙ ap (λ l. pre ++ l) (sym a.scanned)))

  replace_from-scan :
      (fuel : ℕ) (pre rest : List ℕ)
      → length rest < fuel
      → replace_from what with_text fuel (pre ++ rest) (length pre)
        ≡ some (pre ++ scan what with_text 0 rest)
  unfolding replace_from
  replace_from-scan zero pre rest h = absurd (omega arith)
  replace_from-scan (suc fuel) pre rest h = rw (find-search pre rest what) (
      replace_found fuel pre rest (search what rest (length pre)) (replace_from-scan fuel)
        (search-Answer w ws with_text rest (length pre)) h)

-- The loop of `replace_all` ends for a text to be found that is not empty, and gives what one pass
-- over the text from left to right gives that replaces each occurrence and goes on behind it.
pub replace_all-scan :
    (text : List ℕ) (w : ℕ) (ws with_text : List ℕ)
    → replace_all text (w ∷ ws) with_text ≡ some (scan (w ∷ ws) with_text 0 text)
unfolding replace_all
replace_all-scan text w ws with_text =
    replace_from-scan w ws with_text (suc (length text)) [] text (omega arith)

-- The text without a character.
unfoldable pub without : ℕ → List ℕ → List ℕ
without c [] = []
without c (x ∷ xs) = let rest = without c xs in if c == x then rest else x ∷ rest

scan-without : (c : ℕ) (text : List ℕ) → scan (c ∷ []) [] 0 text ≡ without c text
unfolding scan without starts_with
scan-without c [] = refl
scan-without c (x ∷ xs) = elim (Bool-cases (c == x)) [
  | inl e ↦ rw e (scan-without c xs)
  | inr e ↦ rw e (ap (◌∷◌ x) (scan-without c xs))
]

-- `remove_all` of one character ends and gives the other characters in order.
pub remove_all-without : (text : List ℕ) (c : ℕ) → remove_all text (c ∷ []) ≡ some (without c text)
unfolding remove_all
remove_all-without text c = replace_all-scan text c [] [] ∙ ap some (scan-without c text)
