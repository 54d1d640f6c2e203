-- ===== src/Processing/Reports.antt =====
-- When `findMinMax` (src/iec_core/algo/processing.cpp) reports, and what.
use bpf_program.Base.{
  ℕ, suc, ◌+◌, ◌%◌, ◌^◌, ◌<◌, ◌≡◌, Bool, if◌then◌else◌, List, [], ◌∷◌, length, get_or, take, ltb,
}
use bpf_program.Base.Int.{pos, negsuc}
use bpf_program.Asdu.{units_per_asdu}
use bpf_program.Points.{Float}
use bpf_program.Processing.{reported, quiet, nought, find_min_max}
use bpf_program.Processing.Extremes.{Le, IsBest}
use bpf_program.Processing.Selection.{IsLargest, spreads}

-- The sign of a difference of f32 is their order, and the factors 1 and -1 keep and turn a sign.
pub record IsSigned {F : Type 0} (f : Float F) : Type 0 where
  pub sub_low : (a b : F) → f.lt (f.sub a b) (nought f) ≡ f.lt a b
  pub sub_high : (a b : F) → f.lt (nought f) (f.sub a b) ≡ f.lt b a
  pub mul_plus : (a : F) → f.lt (f.mul a (f.of_int (pos 1))) (nought f) ≡ f.lt a (nought f)
  pub mul_minus : (a : F) → f.lt (f.mul a (f.of_int (negsuc 0))) (nought f) ≡ f.lt (nought f) a

module _ {F : Type 0} (f : Float F) where
  -- `x` is above the middle and `first` is below it, or `x` is below and `first` is not.
  abbrev pub is_beyond : (first mid x : F) → Bool
  is_beyond first mid x = if f.lt first mid then f.lt mid x else f.lt x mid

  -- The indices, from `index` on, of the points that are beyond the middle in the place `selected`.
  unfoldable pub beyond : (first mid : F) → (selected index : ℕ) → List (List F) → List ℕ
  beyond first mid selected index [] = []
  beyond first mid selected index (p ∷ points) =
      let rest = beyond first mid selected (suc index) points in
      if is_beyond first mid (get_or p selected f.max) then index ∷ rest else rest

  abbrev pub middle : List F → List F → ℕ → F
  middle mins maxs i = f.halve (f.add (get_or maxs i f.max) (get_or mins i f.max))

  -- What `findMinMax` gives on points of which `p` is the first.
  pub record IsFound (count : ℕ) (p : List F) (points : List (List F)) : Type 0 where
    pub mins : List F
    pub maxs : List F
    pub selected : ℕ
    pub magnitude : F
    pub lowest :
        (i : ℕ)
        → i < units_per_asdu
        → IsBest (Le f) f.max i f.max (get_or mins i f.max) (p ∷ points)
    pub highest :
        (i : ℕ)
        → i < units_per_asdu
        → IsBest (λ a b. Le f b a) f.max i f.min (get_or maxs i f.max) (p ∷ points)
    pub largest : IsLargest f 0 (0, f.min) (spreads f maxs mins) f.max (selected, magnitude)
    pub periods : List ℕ
    pub periods_eq :
        periods ≡ beyond (get_or p selected f.max) (middle mins maxs selected) selected 1 points
    pub verdict_eq : find_min_max f count (p ∷ points) ≡ (
        if ltb (length periods) 3
        then quiet count
        else reported
            (record {
              mins = mins;
              maxs = maxs;
              selected = selected;
              magnitude = magnitude;
              periods = take 3 periods;
            })
            ((count + 1) % 2 ^ 64))
