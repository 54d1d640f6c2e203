-- ===== src/Processing/Crossings.antt =====
-- The loop of `findMinMax` (src/iec_core/algo/processing.cpp) that fills `periods`.
use bpf_program.Base.{
  ℕ, zero, suc, ◌+◌, ◌≡◌, refl, sym, ◌∙◌, List, [], ◌∷◌, ◌++◌, length, length-append, take, lt→ltb,
  le→ltb, Bool-cases, inl, inr, arith, if◌then◌else◌,
}
use mathlib.Core.List.{append_assoc, append-nil}
use bpf_program.Base.Int.{ℤ}
use bpf_program.Points.{Float}
use bpf_program.Processing.{opposite, crossings}

module _ {F : Type 0} (f : Float F) (sign : ℤ) (selected : ℕ) (mid : F) where
  -- The indices, from `index` on, of the samples on the other side of the middle.
  unfoldable pub across : ℕ → List (List F) → List ℕ
  across index [] = []
  across index (p ∷ points) =
      let rest = across (suc index) points in
      if opposite f sign selected mid p then index ∷ rest else rest

  -- The loop goes on with room for `suc n` entries.
  crossings_room :
      (n index : ℕ) (periods : List ℕ) (points : List (List F))
      → length periods + suc n ≡ 3
      → crossings f sign selected mid index periods points
        ≡ periods ++ take (suc n) (across index points)
  unfolding crossings across
  crossings_room n index periods [] h = sym (append-nil periods)
  crossings_room zero index periods (p ∷ points) h =
      elim (Bool-cases (opposite f sign selected mid p)) [
        | inl e ↦
            rw
              (
                e,
                le→ltb (length (periods ++ (index ∷ []))) 3
                    (omega (arith, h, length-append periods (index ∷ []))),
              )
              refl
        | inr e ↦ rw e (crossings_room zero (suc index) periods points h)
      ]
  crossings_room (suc n) index periods (p ∷ points) h =
      elim (Bool-cases (opposite f sign selected mid p)) [
        | inl e ↦
            let longer = length-append periods (index ∷ []) in
            rw (e, lt→ltb (length (periods ++ (index ∷ []))) 3 (omega (arith, h, longer)))
              (crossings_room n (suc index) (periods ++ (index ∷ [])) points
                  (omega (arith, h, longer))
                ∙ append_assoc periods (index ∷ []) (take (suc n) (across (suc index) points)))
        | inr e ↦ rw e (crossings_room (suc n) (suc index) periods points h)
      ]

  -- The entries of `periods` that the loop sets are the indices of the first three samples on the
  -- other side of the middle, or of all where there are fewer.
  pub crossings-across :
      (points : List (List F))
      → crossings f sign selected mid 1 [] points ≡ take 3 (across 1 points)
  crossings-across points = crossings_room 2 1 [] points refl
