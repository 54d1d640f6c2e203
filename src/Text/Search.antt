-- ===== src/Text/Search.antt =====
-- What `std::string::find` gives, against a scan of the text from left to right.
use bpf_program.Base.{
  ℕ, zero, suc, ◌+◌, ◌-◌, ◌≡◌, refl, sym, ap, ◌∙◌, Bool, true, false, ◌&&◌, Option, none, some,
  List, [], ◌∷◌, ◌++◌, ◌==◌, ==_iff, if◌then◌else◌, length, drop, Bool-cases, inl, inr, arith,
}
use bpf_program.Text.{starts_with, search}

-- The text with each occurrence replaced in one pass, where `skip` characters are passed over.
unfoldable pub scan : (what with_text : List ℕ) → ℕ → List ℕ → List ℕ
scan what with_text skip [] = []
scan what with_text (suc skip) (c ∷ cs) = scan what with_text skip cs
scan what with_text zero (c ∷ cs) =
    let hit = scan what with_text (length what - 1) cs in
    let miss = scan what with_text 0 cs in
    if starts_with what (c ∷ cs) then with_text ++ hit else c ∷ miss

and_true : (a b : Bool) → a && b ≡ true → (a ≡ true) × (b ≡ true)
and_true true b h = (refl, h)
and_true false b h = absurd (cc)

starts_with-drop :
    (what text : List ℕ) → starts_with what text ≡ true → text ≡ what ++ drop (length what) text
unfolding starts_with
starts_with-drop [] text h = refl
starts_with-drop (w ∷ ws) [] h = absurd (cc)
starts_with-drop (w ∷ ws) (c ∷ cs) h =
    let q : (w == c ≡ true) × (starts_with ws cs ≡ true) =
      and_true (w == c) (starts_with ws cs) h in
    let e : w ≡ c = (==_iff w c).0 q.0 in rw (sym e) (ap (◌∷◌ w) (starts_with-drop ws cs q.1))

scan-skip :
    (what with_text : List ℕ) (k : ℕ) (text : List ℕ)
    → scan what with_text k text ≡ scan what with_text 0 (drop k text)
unfolding scan
scan-skip what with_text zero text = refl
scan-skip what with_text (suc k) [] = refl
scan-skip what with_text (suc k) (c ∷ cs) = scan-skip what with_text k cs

-- What the search finds is the first occurrence, up to which the scan copies.
pub record Found (what with_text text : List ℕ) (pos at : ℕ) : Type 0 where
  pub front : List ℕ
  pub back : List ℕ
  pub whole : text ≡ front ++ (what ++ back)
  pub place : at ≡ pos + length front
  pub scanned : scan what with_text 0 text ≡ front ++ (with_text ++ scan what with_text 0 back)

unfoldable pub Answer : (what with_text text : List ℕ) → ℕ → Option ℕ → Type 0
Answer what with_text text pos none = scan what with_text 0 text ≡ text
Answer what with_text text pos (some at) = Found what with_text text pos at

module _ (w : ℕ) (ws with_text : List ℕ) where
  abbrev what : List ℕ
  what = w ∷ ws

  Found-here :
      (c : ℕ) (cs : List ℕ) (pos : ℕ)
      → starts_with what (c ∷ cs) ≡ true
      → Found what with_text (c ∷ cs) pos pos
  unfolding scan
  Found-here c cs pos h = record {
    front = [];
    back = drop (length ws) cs;
    whole = starts_with-drop what (c ∷ cs) h;
    place = omega arith;
    scanned = rw h (
        let e : length what - 1 ≡ length ws = omega arith in
        ap (λ l. with_text ++ l)
          (ap (λ k. scan what with_text k cs) e ∙ scan-skip what with_text (length ws) cs));
  }

  Answer-later :
      (c : ℕ) (cs : List ℕ) (pos : ℕ) (o : Option ℕ)
      → starts_with what (c ∷ cs) ≡ false
      → Answer what with_text cs (suc pos) o
      → Answer what with_text (c ∷ cs) pos o
  unfolding Answer scan
  Answer-later c cs pos none h a = rw h (ap (◌∷◌ c) a)
  Answer-later c cs pos (some at) h a = record {
    front = c ∷ a.front;
    back = a.back;
    whole = ap (◌∷◌ c) a.whole;
    place = omega (arith, a.place);
    scanned = rw h (ap (◌∷◌ c) a.scanned);
  }

  pub search-Answer :
      (text : List ℕ) (pos : ℕ) → Answer what with_text text pos (search what text pos)
  unfolding search Answer starts_with scan
  search-Answer [] pos = refl
  search-Answer (c ∷ cs) pos = elim (Bool-cases (starts_with what (c ∷ cs))) [
    | inl h ↦ rw h (Found-here c cs pos h)
    | inr h ↦ rw h (Answer-later c cs pos (search what cs (suc pos)) h (search-Answer cs (suc pos)))
  ]
