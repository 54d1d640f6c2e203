-- ===== src/Capture/Tests.antt =====
-- A telegram that bpf/ethernet-parse.c keeps, on its way to the handler, with the pipeline of
-- Pipeline/Tests.
use mathlib.Core.Path.{subst}
use bpf_program.Base.{ℕ, zero, suc, ◌≡◌, refl, sym, arith, Option, none, some, [], ◌∷◌, All}
use bpf_program.Bytes.{little_endian}
use bpf_program.Parser.Tests.{id, asdu}
use bpf_program.Filter.{iec61850_filter, pdu_size, compare_id, sv_id_cmp, same_from}
use bpf_program.Filter.Tests.{list_load, list_load-IsLoad, layout, layout-IsEthernet, settings}
use bpf_program.Processing.Tests.{int_float}
use bpf_program.Pipeline.{Reach}
use bpf_program.Pipeline.Works.{socket}
use bpf_program.Pipeline.Checks.{Checks}
use bpf_program.Pipeline.Tests.{own, own-IsEmpty, begin, network, taken, taken-Reach, still_working}
use bpf_program.Capture.{Telegram, captured, wanted}
use bpf_program.Capture.Wanted.{IsTelegram, sent_by, Reach-Checks-wanted}

abbrev telegram : Telegram
telegram = record {
  dst = 1 ∷ 12 ∷ 205 ∷ 4 ∷ 0 ∷ 1 ∷ [];
  src = 12 ∷ 239 ∷ 175 ∷ 48 ∷ 66 ∷ 204 ∷ [];
  kind = 136 ∷ 186 ∷ [];
  app_id = 0x4000;
  res1 = 0;
  res2 = 0;
  sample = record { sv_id = id; asdu = asdu };
}

-- The same from another source, in the second round.
abbrev foreign : Telegram
foreign = record telegram { src = 12 ∷ 239 ∷ 175 ∷ 48 ∷ 66 ∷ 205 ∷ [] }

abbrev wire : ℕ → Option Telegram
wire zero = some telegram
wire (suc zero) = some foreign
wire (suc (suc n)) = none

telegram-IsTelegram : IsTelegram telegram
telegram-IsTelegram = record {
  dst_length = refl;
  src_length = refl;
  kind_length = refl;
  valid = omega arith;
  bytes = omega arith;
}

foreign-IsTelegram : IsTelegram foreign
foreign-IsTelegram = record {
  dst_length = refl;
  src_length = refl;
  kind_length = refl;
  valid = omega arith;
  bytes = omega arith;
}

wire-IsTelegram : (n : ℕ) → All IsTelegram (sent_by (wire n))
wire-IsTelegram zero = (telegram-IsTelegram, tt)
wire-IsTelegram (suc zero) = (foreign-IsTelegram, tt)
wire-IsTelegram (suc (suc n)) = tt

captured-network : (n : ℕ) → captured list_load layout settings (wire n) ≡ network n
unfolding captured iec61850_filter pdu_size compare_id sv_id_cmp same_from
captured-network zero = refl
captured-network (suc zero) = refl
captured-network (suc (suc n)) = refl

captured-Reach :
    Reach int_float little_endian
      (socket (λ n. captured list_load layout settings (wire n)))
      begin
      taken
captured-Reach =
    subst (λ net. Reach int_float little_endian (socket net) begin taken)
      (λ i n. sym (captured-network n) i) taken-Reach

Reach-Checks-wanted_example : Checks int_float little_endian (λ n. wanted settings (wire n)) taken
Reach-Checks-wanted_example =
    Reach-Checks-wanted list_load-IsLoad layout-IsEthernet settings (omega arith) int_float
      little_endian wire own own own own-IsEmpty wire-IsTelegram still_working captured-Reach
