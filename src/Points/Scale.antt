-- ===== src/Points/Scale.antt =====
-- `IecParser::convert` of include/iec_core/iec/iec_parser.h against a description of one point.
use bpf_program.Base.{
  ℕ, zero, suc, ◌+◌, ◌≤◌, ◌≡◌, refl, ap, sym, ◌∙◌, List, [], ◌∷◌, ◌++◌, map, lt→ltb, le→ltb, take,
  drop, arith,
}
use mathlib.Core.List.{append_assoc, append-nil}
use bpf_program.Asdu.{DataUnit, Asdu}
use bpf_program.Points.{Float, point_values, convert}

module _ {F : Type 0} (f : Float F) where
  abbrev pub scaled : F → DataUnit → F
  scaled scale u = f.mul (f.of_int u.inst_mag) scale

  -- Four currents and four voltages.
  unfoldable pub point : Asdu → List F
  point a = map (scaled f.amp_scale) (take 4 a.units) ++ map (scaled f.vol_scale) (drop 4 a.units)

  voltages :
      (i : ℕ) (us : List DataUnit) → 4 ≤ i → point_values f i us ≡ map (scaled f.vol_scale) us
  unfolding point_values
  voltages i [] h = refl
  voltages i (u ∷ us) h =
      rw (le→ltb i 4 h)
        (ap (λ l. scaled f.vol_scale u ∷ l) (voltages (suc i) us (omega (arith, h))))

  signals :
      (n i : ℕ) (us : List DataUnit)
      → i + n ≡ 4
      → point_values f i us
        ≡ map (scaled f.amp_scale) (take n us) ++ map (scaled f.vol_scale) (drop n us)
  unfolding point_values
  signals zero i us h = voltages i us (omega (arith, h))
  signals (suc n) i [] h = refl
  signals (suc n) i (u ∷ us) h =
      rw (lt→ltb i 4 (omega (arith, h)))
        (ap (λ l. scaled f.amp_scale u ∷ l) (signals n (suc i) us (omega (arith, h))))

  -- `convert` appends a point for each ASDU, in order: the first four units scaled as currents, the
  -- others as voltages.
  pub convert-point :
      (from : List Asdu) (to : List (List F)) → convert f from to ≡ to ++ map point from
  unfolding convert point
  convert-point [] to = sym (append-nil to)
  convert-point (a ∷ rest) to =
      convert-point rest (to ++ (point_values f 0 a.units ∷ []))
      ∙ append_assoc to (point_values f 0 a.units ∷ []) (map point rest)
      ∙ ap (λ p. to ++ (p ∷ map point rest)) (signals 4 0 a.units refl)
