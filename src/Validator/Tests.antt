-- ===== src/Validator/Tests.antt =====
-- The theorems on src/iec_core/iec/validator.cpp at short sequences of samples.
use bpf_program.Base.{ℕ, ◌+◌, ◌-◌, ◌^◌, ◌≤◌, ◌≡◌, ◌↔◌, refl, arith, List, [], ◌∷◌}
use bpf_program.Asdu.{Asdu}
use bpf_program.Validator.{
  Validator, correct, initial, statistics, returned, new, validate, validate_all, update,
}
use bpf_program.Validator.Chain.{Returns, Fits, update-Fits}
use bpf_program.Validator.Counts.{update-missed_count, validate-wraps}

abbrev sample : ℕ → Asdu
sample n = record { smp_cnt = n; smp_synch = 2; conf_rev = 1; units = [] }

abbrev over_second : List Asdu
over_second = sample 3998 ∷ sample 3999 ∷ sample 0 ∷ sample 1 ∷ []

abbrev gapped : List Asdu
gapped = sample 7 ∷ sample 9 ∷ []

abbrev counting : Validator
counting = record new { strategy = statistics; state = correct; captured_smp_sync = 5 }

accepts_over_second : Returns (update new over_second)
unfolding update validate_all validate
accepts_over_second = tt

refuses_gap : ¬ Returns (update new gapped)
unfolding update validate_all validate
refuses_gap r = r

update-Fits_example : Returns (update new over_second) ↔ Fits initial 0 over_second
update-Fits_example = update-Fits new over_second refl

update-missed_count_example :
    (w : Validator) × (update counting gapped ≡ returned w)
    × (w.missed_count + w.captured_count + 5 ≡ 0 + 0 + w.captured_smp_sync)
update-missed_count_example =
    update-missed_count counting (sample 7) (sample 9 ∷ []) refl tt (omega arith) (omega arith)
      (omega arith)

-- The counts 3998 and 3999 are lost, and more than 4 * 10 ^ 9 samples seem to be.
validate-wraps_example :
    (w : Validator) × (validate (record counting { captured_smp_sync = 3997 }) 0 ≡ returned w)
    × (2 ^ 32 - 2 ^ 16 ≤ w.missed_count)
validate-wraps_example =
    validate-wraps (record counting { captured_smp_sync = 3997 }) 0 refl tt refl (omega arith)
      (omega arith) (omega arith)
