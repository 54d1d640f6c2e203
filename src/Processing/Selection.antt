-- ===== src/Processing/Selection.antt =====
-- The signal that `findMinMax` (src/iec_core/algo/processing.cpp) selects.
use bpf_program.Base.{
  ℕ, suc, ◌+◌, ◌<◌, ◌≡◌, refl, ap, ◌∙◌, ◌⊎◌, List, [], ◌∷◌, length, get_or, Bool-cases, inl, inr,
  All, arith,
}
use bpf_program.Points.{Float}
use bpf_program.Processing.{zip_with, select}
use bpf_program.Processing.Extremes.{Le, IsOrdered}

module _ {F : Type 0} (f : Float F) where
  -- The spread of each signal.
  abbrev pub spreads : List F → List F → List F
  spreads maxs mins = zip_with f.sub maxs mins

  -- The selection among the spreads from `index` on, after `start`.
  pub record IsLargest (index : ℕ) (start : ℕ × F) (diffs : List F) (d : F) (best : ℕ × F)
      : Type 0 where
    pub bound : All (λ x. Le f x best.1) diffs
    pub from_start : Le f start.1 best.1
    pub found :
        (best ≡ start)
        ⊎ ((i : ℕ) × (i < length diffs) × (best.0 ≡ index + i) × (best.1 ≡ get_or diffs i d))

module _ {F : Type 0} {f : Float F} (ordered : IsOrdered f) where
  open ordered use {le_of_lt, le_refl, le_trans}

  select_from :
      (index : ℕ) (start : ℕ × F) (maxs mins : List F) (d : F)
      → IsLargest f index start (spreads f maxs mins) d (select f index start maxs mins)
  unfolding select
  select_from index start [] mins d = record {
    bound = tt;
    from_start = le_refl start.1;
    found = inl refl;
  }
  select_from index start (a ∷ maxs) [] d = record {
    bound = tt;
    from_start = le_refl start.1;
    found = inl refl;
  }
  select_from index (selected, magnitude) (a ∷ maxs) (b ∷ mins) d =
      elim (Bool-cases (f.lt magnitude (f.sub a b))) [
        | inl e ↦
            let rest = select_from (suc index) (index, f.sub a b) maxs mins d in
            rw e (record {
              bound = (rest.from_start, rest.bound);
              from_start = le_trans _ _ _ (le_of_lt _ _ e) rest.from_start;
              found = elim rest.found [
                | inl same ↦
                    inr (0, omega arith, ap (λ x. x.0) same ∙ omega arith, ap (λ x. x.1) same)
                | inr (i, lt, at, is) ↦ inr (suc i, omega (arith, lt), omega (arith, at), is)
              ];
            })
        | inr e ↦
            let rest = select_from (suc index) (selected, magnitude) maxs mins d in
            rw e (record {
              bound = (le_trans _ _ _ e rest.from_start, rest.bound);
              from_start = rest.from_start;
              found = elim rest.found [
                | inl same ↦ inl same
                | inr (i, lt, at, is) ↦ inr (suc i, omega (arith, lt), omega (arith, at), is)
              ];
            })
      ]

  -- The signal that is selected has a largest spread, and `magnitude` is this spread, unless no
  -- spread is above the smallest positive f32: then it is that number, and the first signal is
  -- selected.
  pub select_lem :
      (maxs mins : List F) (d : F)
      → IsLargest f 0 (0, f.min) (spreads f maxs mins) d (select f 0 (0, f.min) maxs mins)
  select_lem maxs mins d = select_from 0 (0, f.min) maxs mins d
