-- ===== src/Processing/Tests.antt =====
-- `findMinMax` on integers in place of floating-point numbers, at a triangle wave.
use bpf_program.Base.{
  ℕ, suc, ◌+◌, ◌-◌, ◌*◌, ◌/◌, ◌≡◌, refl, List, [], ◌∷◌, ltb, if◌then◌else◌, arith, get_or, take,
}
use bpf_program.Base.Int.{ℤ, pos, negsuc}
use bpf_program.Asdu.{DataUnit, Asdu}
use bpf_program.Points.{Float}
use bpf_program.Processing.{
  reported, filled, sweep, std_min, std_max, select, opposite, crossings, judge, find_min_max,
}
use bpf_program.Processing.Extremes.{IsOrdered, Le, IsBest, sweep_lem}
use bpf_program.Processing.Selection.{IsLargest, spreads, select_lem}
use bpf_program.Processing.Crossings.{across, crossings-across}

abbrev up : ℤ → ℕ
up (pos n) = n
up (negsuc n) = 0

abbrev down : ℤ → ℕ
down (pos n) = 0
down (negsuc n) = suc n

abbrev between : ℕ → ℕ → ℤ
between a b = if ltb a b then negsuc (b - a - 1) else pos (a - b)

abbrev pub int_float : Float ℤ
int_float = record {
  of_int = λ x. x;
  add = λ a b. between (up a + up b) (down a + down b);
  sub = λ a b. between (up a + down b) (down a + up b);
  mul = λ a b. between (up a * up b + down a * down b) (up a * down b + down a * up b);
  halve = λ a. between (up a / 2) (down a / 2);
  lt = λ a b. ltb (up a + down b) (down a + up b);
  amp_scale = pos 1;
  vol_scale = pos 10;
  min = pos 0;
  max = pos 1000000;
}

int_float-IsOrdered : IsOrdered int_float
int_float-IsOrdered = record {
  le_of_lt = λ a b h. ground arith;
  le_refl = λ a. ground arith;
  le_trans = λ a b c h k. ground arith;
}

abbrev wave : ℤ → List ℤ
wave x = x ∷ pos 1 ∷ pos 1 ∷ pos 1 ∷ pos 2 ∷ pos 2 ∷ pos 2 ∷ pos 2 ∷ []

abbrev tail : List (List ℤ)
tail = wave (pos 5) ∷ wave (negsuc 4) ∷ wave (negsuc 8) ∷ wave (negsuc 4) ∷ wave (pos 5) ∷ []

-- Three samples below the middle in a row are taken for three crossings.
wave_run :
    find_min_max int_float 1 (wave (pos 9) ∷ tail)
    ≡ reported
        (record {
          mins = wave (negsuc 8);
          maxs = wave (pos 9);
          selected = 0;
          magnitude = pos 18;
          periods = 2 ∷ 3 ∷ 4 ∷ [];
        })
        2
unfolding find_min_max judge sweep select crossings opposite
wave_run = refl

sweep_lem_example :
    IsBest
      (Le int_float)
      (pos 0)
      4
      (pos 1000000)
      (get_or (sweep (std_min int_float) (filled 8 (pos 1000000)) tail) 4 (pos 0))
      tail
    × IsBest
        (λ a b. Le int_float b a)
        (pos 0)
        4
        (pos 0)
        (get_or (sweep (std_max int_float) (filled 8 (pos 0)) tail) 4 (pos 0))
        tail
sweep_lem_example =
    sweep_lem int_float-IsOrdered tail 4 (pos 0) (omega arith)
      (refl, (refl, (refl, (refl, (refl, tt)))))

select_lem_example :
    IsLargest int_float 0
      (0, pos 0)
      (spreads int_float (wave (pos 9)) (wave (negsuc 8)))
      (pos 0)
      (select int_float 0 (0, pos 0) (wave (pos 9)) (wave (negsuc 8)))
select_lem_example = select_lem int_float-IsOrdered (wave (pos 9)) (wave (negsuc 8)) (pos 0)

crossings-across_example :
    crossings int_float (pos 1) 0 (pos 0) 1 [] tail
    ≡ take 3 (across int_float (pos 1) 0 (pos 0) 1 tail)
crossings-across_example = crossings-across int_float (pos 1) 0 (pos 0) tail

abbrev unit : DataUnit
unit = record { inst_mag = negsuc 2; quality = 0; bitset = 0 }

abbrev sampled : Asdu
sampled = record {
  smp_cnt = 0;
  smp_synch = 1;
  conf_rev = 1;
  units = unit ∷ unit ∷ unit ∷ unit ∷ unit ∷ unit ∷ unit ∷ unit ∷ [];
}
