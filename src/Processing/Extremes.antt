-- ===== src/Processing/Extremes.antt =====
-- The extremes that `findMinMax` (src/iec_core/algo/processing.cpp) finds.
use bpf_program.Base.{
  ℕ, zero, suc, ◌<◌, ◌≡◌, refl, ap, ◌∙◌, ◌⊎◌, true, false, List, [], ◌∷◌, length, get_or,
  Bool-cases, inl, inr, All, arith,
}
use mathlib.Core.Path.{subst}
use bpf_program.Asdu.{units_per_asdu}
use bpf_program.Points.{Float}
use bpf_program.Processing.{filled, zip_with, std_min, std_max, sweep}

-- `<=` on the numbers that `convert` can give, which are not NaN.
abbrev pub Le : {F : Type 0} → Float F → F → F → Type 0
Le f a b = f.lt b a ≡ false

pub record IsOrdered {F : Type 0} (f : Float F) : Type 0 where
  pub le_of_lt : (a b : F) → f.lt a b ≡ true → Le f a b
  pub le_refl : (a : F) → Le f a a
  pub le_trans : (a b c : F) → Le f a b → Le f b c → Le f a c

-- A choice between two numbers that comes before both of them in a preorder.
record Chooses {F : Type 0} (R : F → F → Type 0) (best : F → F → F) : Type 0 where
  chosen : (a b : F) → (best a b ≡ a) ⊎ (best a b ≡ b)
  left : (a b : F) → R (best a b) a
  right : (a b : F) → R (best a b) b
  reflexive : (a : F) → R a a
  transitive : (a b c : F) → R a b → R b c → R a c

-- One of the points has the number in that place.
abbrev pub Somewhere : {F : Type 0} → F → ℕ → F → List (List F) → Type 0
Somewhere d i x [] = ⊥
Somewhere d i x (p ∷ points) = (x ≡ get_or p i d) ⊎ Somewhere d i x points

pub length-zip_with :
    {F : Type 0} (g : F → F → F) (xs ys : List F)
    → length ys ≡ length xs
    → length (zip_with g xs ys) ≡ length xs
length-zip_with g [] ys h = refl
length-zip_with g (x ∷ xs) [] h = absurd (omega arith)
length-zip_with g (x ∷ xs) (y ∷ ys) h = ap suc (length-zip_with g xs ys (omega (arith, h)))

pub get_or-zip_with :
    {F : Type 0} (g : F → F → F) (xs ys : List F) (i : ℕ) (d : F)
    → i < length xs
    → length ys ≡ length xs
    → get_or (zip_with g xs ys) i d ≡ g (get_or xs i d) (get_or ys i d)
get_or-zip_with g [] ys i d h e = absurd (omega arith)
get_or-zip_with g (x ∷ xs) [] i d h e = absurd (omega arith)
get_or-zip_with g (x ∷ xs) (y ∷ ys) zero d h e = refl
get_or-zip_with g (x ∷ xs) (y ∷ ys) (suc i) d h e =
    get_or-zip_with g xs ys i d (omega (arith, h)) (omega (arith, e))

-- What holds of the number `x` in place `i`, from `a` on.
pub record IsBest {F : Type 0} (R : F → F → Type 0) (d : F) (i : ℕ) (a x : F)
    (points : List (List F)) : Type 0 where
  pub bound : All (λ p. R x (get_or p i d)) points
  pub start : R x a
  pub found : (x ≡ a) ⊎ Somewhere d i x points

IsBest-cons :
    {F : Type 0} {R : F → F → Type 0} {best : F → F → F}
    → Chooses R best
    → (d : F) (i : ℕ) (a b x : F) (p : List F) (points : List (List F)) → b ≡ best a (get_or p i d)
    → IsBest R d i b x points
    → IsBest R d i a x (p ∷ points)
IsBest-cons {R} {best} choice d i a b x p points e rest =
    let before : R x (best a (get_or p i d)) = subst (λ y. R x y) e rest.start in
    record {
      bound =
          (choice.transitive x _ (get_or p i d) before (choice.right a (get_or p i d)), rest.bound);
      start = choice.transitive x _ a before (choice.left a (get_or p i d));
      found = elim rest.found [
        | inr later ↦ inr (inr later)
        | inl same ↦ elim (choice.chosen a (get_or p i d)) [
          | inl kept ↦ inl (same ∙ e ∙ kept)
          | inr new ↦ inr (inl (same ∙ e ∙ new))
        ]
      ];
    }

sweep-IsBest :
    {F : Type 0} {R : F → F → Type 0} {best : F → F → F}
    → Chooses R best
    → (n : ℕ) (acc : List F) (points : List (List F)) (i : ℕ) (d : F) → i < n
    → length acc ≡ n
    → All (λ p. length p ≡ n) points
    → IsBest R d i (get_or acc i d) (get_or (sweep best acc points) i d) points
unfolding sweep
sweep-IsBest choice n acc [] i d h s e = record {
  bound = tt;
  start = choice.reflexive _;
  found = inl refl;
}
sweep-IsBest {best} choice n acc (p ∷ points) i d h s (e, rest) =
    let wide : length p ≡ length acc = omega (arith, e, s) in
    let size : length (zip_with best acc p) ≡ n = length-zip_with best acc p wide ∙ s in
    IsBest-cons choice d i (get_or acc i d) _ _ p points
      (get_or-zip_with best acc p i d (omega (arith, h, s)) wide)
      (sweep-IsBest choice n (zip_with best acc p) points i d h size rest)

get_or-filled : {F : Type 0} (n i : ℕ) (x d : F) → i < n → get_or (filled n x) i d ≡ x
get_or-filled zero i x d h = absurd (omega arith)
get_or-filled (suc n) zero x d h = refl
get_or-filled (suc n) (suc i) x d h = get_or-filled n i x d (omega (arith, h))

sweep-filled-IsBest :
    {F : Type 0} {R : F → F → Type 0} {best : F → F → F}
    → Chooses R best
    → (x : F) (points : List (List F)) (i : ℕ) (d : F) → i < units_per_asdu
    → All (λ p. length p ≡ units_per_asdu) points
    → IsBest R d i x (get_or (sweep best (filled units_per_asdu x) points) i d) points
sweep-filled-IsBest {R} {best} choice x points i d h e =
    subst (λ a. IsBest R d i a (get_or (sweep best (filled units_per_asdu x) points) i d) points)
      (get_or-filled units_per_asdu i x d h)
      (sweep-IsBest choice units_per_asdu (filled units_per_asdu x) points i d h refl e)

module _ {F : Type 0} {f : Float F} (ordered : IsOrdered f) where
  open ordered use {le_of_lt, le_refl, le_trans}

  std_min-Chooses : Chooses (Le f) (std_min f)
  std_min-Chooses = record {
    chosen =
        λ a b. elim (Bool-cases (f.lt b a)) [ inl e ↦ rw e (inr refl) | inr e ↦ rw e (inl refl) ];
    left = λ a b. elim (Bool-cases (f.lt b a)) [
      | inl e ↦ rw e (le_of_lt b a e)
      | inr e ↦ rw e (le_refl a)
    ];
    right = λ a b. elim (Bool-cases (f.lt b a)) [ inl e ↦ rw e (le_refl b) | inr e ↦ rw e e ];
    reflexive = le_refl;
    transitive = le_trans;
  }

  std_max-Chooses : Chooses (λ a b. Le f b a) (std_max f)
  std_max-Chooses = record {
    chosen =
        λ a b. elim (Bool-cases (f.lt a b)) [ inl e ↦ rw e (inr refl) | inr e ↦ rw e (inl refl) ];
    left = λ a b. elim (Bool-cases (f.lt a b)) [
      | inl e ↦ rw e (le_of_lt a b e)
      | inr e ↦ rw e (le_refl a)
    ];
    right = λ a b. elim (Bool-cases (f.lt a b)) [ inl e ↦ rw e (le_refl b) | inr e ↦ rw e e ];
    reflexive = le_refl;
    transitive = λ a b c h k. le_trans c b a k h;
  }

  -- In the place of each signal, `minArray` ends with a number that is not above the largest f32 nor
  -- any point's, and that is one of these; `maxArray` with one that is not below the smallest
  -- positive f32 nor any point's, and that is one of these. Every point has eight numbers.
  pub sweep_lem :
      (points : List (List F)) (i : ℕ) (d : F)
      → i < units_per_asdu
      → All (λ p. length p ≡ units_per_asdu) points
      → IsBest
          (Le f)
          d
          i
          f.max
          (get_or (sweep (std_min f) (filled units_per_asdu f.max) points) i d)
          points
        × IsBest
            (λ a b. Le f b a)
            d
            i
            f.min
            (get_or (sweep (std_max f) (filled units_per_asdu f.min) points) i d)
            points
  sweep_lem points i d h e = (
    sweep-filled-IsBest std_min-Chooses f.max points i d h e,
    sweep-filled-IsBest std_max-Chooses f.min points i d h e,
  )
