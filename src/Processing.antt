-- ===== src/Processing.antt =====
-- `algo::findMinMax` (src/iec_core/algo/processing.cpp). An array of eight numbers is the list of
-- them; what is printed is the report that is returned.
pub mod Extremes
pub mod Selection
pub mod Crossings
pub mod Reports
pub mod Tests
use bpf_program.Base.{
  ℕ, zero, suc, ◌+◌, ◌%◌, ◌^◌, Bool, true, false, Option, none, some, List, [], ◌∷◌, ◌++◌, length,
  get_or, if◌then◌else◌, leb, ltb,
}
use bpf_program.Base.Int.{ℤ, pos, negsuc}
use bpf_program.Asdu.{units_per_asdu}
use bpf_program.Points.{Float}

pub record Report (F : Type 0) : Type 0 where
  pub mins : List F
  pub maxs : List F
  pub selected : ℕ
  pub magnitude : F
  pub periods : List ℕ

-- The value of the static `count` comes with the result. `empty` is the undefined access to
-- `points[0]`.
pub data Verdict (F : Type 0) : Type 0 where
  reported : Report F → ℕ → Verdict F
  quiet : ℕ → Verdict F
  empty : Verdict F

abbrev pub filled {ℓ} : {A : Type ℓ} → ℕ → A → List A
filled zero x = []
filled (suc n) x = x ∷ filled n x

abbrev pub zip_with {ℓ} : {A : Type ℓ} → (A → A → A) → List A → List A → List A
zip_with g [] ys = []
zip_with g (x ∷ xs) [] = []
zip_with g (x ∷ xs) (y ∷ ys) = g x y ∷ zip_with g xs ys

-- The loop over the points, at `minArray` with `std::min` or at `maxArray` with `std::max`.
unfoldable pub sweep : {F : Type 0} → (F → F → F) → List F → List (List F) → List F
sweep best acc [] = acc
sweep best acc (p ∷ points) = sweep best (zip_with best acc p) points

module _ {F : Type 0} (f : Float F) where
  -- `std::min` and `std::max`
  abbrev pub std_min : F → F → F
  std_min a b = if f.lt b a then b else a

  abbrev pub std_max : F → F → F
  std_max a b = if f.lt a b then b else a

  -- The loop that selects a signal, at `index`, `selected` and `magnitude`.
  unfoldable pub select : ℕ → ℕ × F → List F → List F → ℕ × F
  select index best [] mins = best
  select index best (a ∷ maxs) [] = best
  select index (selected, magnitude) (a ∷ maxs) (b ∷ mins) =
      let diff = f.sub a b in
      let next = if f.lt magnitude diff then (index, diff) else (selected, magnitude) in
      select (suc index) next maxs mins

  abbrev pub adc_mid : List F → List F → List F
  adc_mid maxs mins = zip_with (λ a b. f.halve (f.add a b)) maxs mins

  -- `points[index].values[selected] - adcMid[selected]`
  abbrev pub position : ℕ → F → List F → F
  position selected mid p = f.sub (get_or p selected f.max) mid

  abbrev pub nought : F
  nought = f.of_int (pos 0)

  -- `sign`, and the test of the loop that looks for the crossings
  abbrev pub sign_of : F → ℤ
  sign_of x = if f.lt x nought then negsuc 0 else pos 1

  unfoldable pub opposite : ℤ → ℕ → F → List F → Bool
  opposite sign selected mid p = f.lt (f.mul (position selected mid p) (f.of_int sign)) nought

  -- That loop, at `index` and the entries of `periods` that are set.
  unfoldable pub crossings : ℤ → ℕ → F → ℕ → List ℕ → List (List F) → List ℕ
  crossings sign selected mid index periods [] = periods
  crossings sign selected mid index periods (p ∷ points) =
      let found = periods ++ (index ∷ []) in
      let more = crossings sign selected mid (suc index) found points in
      let none_here = crossings sign selected mid (suc index) periods points in
      if opposite sign selected mid p
      then (if ltb (length found) 3 then more else found)
      else none_here

  -- Behind the extremes and the selection.
  unfoldable pub judge : ℕ → List F → List F → ℕ × F → List (List F) → Verdict F
  judge count mins maxs best [] = empty
  judge count mins maxs (selected, magnitude) (p ∷ points) =
      let mid = get_or (adc_mid maxs mins) selected f.max in
      let sign = sign_of (position selected mid p) in
      let periods = crossings sign selected mid 1 [] points in
      if ltb (length periods) 3
      then quiet count
      else reported
          (record {
            mins = mins;
            maxs = maxs;
            selected = selected;
            magnitude = magnitude;
            periods = periods;
          })
          ((count + 1) % 2 ^ 64)

  unfoldable pub find_min_max : ℕ → List (List F) → Verdict F
  find_min_max count points =
      let mins = sweep std_min (filled units_per_asdu f.max) points in
      let maxs = sweep std_max (filled units_per_asdu f.min) points in
      judge count mins maxs (select 0 (0, f.min) maxs mins) points
