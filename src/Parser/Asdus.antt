-- ===== src/Parser/Asdus.antt =====
-- The ASDUs that the parser of include/iec_core/iec/iec_parser.h accepts.
use mathlib.Core.List.{append-nil}
use bpf_program.Base.{
  ℕ, zero, suc, ◌+◌, ◌*◌, ◌^◌, ◌≤◌, ◌<◌, ◌≡◌, refl, ap, ◌∙◌, arith, true, List, [], ◌∷◌, ◌++◌, ◌==◌,
  ==_iff, length, All,
}
use bpf_program.Bytes.{ByteOrder}
use bpf_program.Asdu.{Asdu, IsAsdu}
use bpf_program.Parser.{
  asdu_rest, parse_sv_id, parse_smp_cnt, parse_conf_rev, parse_smp_synch, parse_dataset, parse_asdu,
  parse_asdus,
}
use bpf_program.Parser.State.{push_back, sub_u8}
use bpf_program.Parser.Encode.{
  Sample, IsSample, encode_dataset, encode_sample, encode_samples, asdus_of,
}
use bpf_program.Parser.Accepts.{
  Accepts, Accepts-mono, Accepts-return, Accepts-require, Accepts-push_back, Accepts-bind,
}
use bpf_program.Parser.Accepts.Then.{Accepts-then}
use bpf_program.Parser.Fields.{Accepts-id, Accepts-cnt, Accepts-rev, Accepts-synch, Accepts-dataset}

-- The identifier and the parts behind it, where `asduLength` comes down to 0.
identified-IsSample :
    (id : List ℕ) (a : Asdu) (l left : ℕ)
    → 10 ≤ length id
    → length id ≤ 34
    → l < 2 ^ 8
    → IsAsdu a
    → left ≡ sub_u8 l (1 + 1 + length id)
    → (asdu_rest left == 0) ≡ true
    → IsSample (record { sv_id = id; asdu = a }) × (l ≡ 81 + length id)
identified-IsSample id a l left least most lt ranges left_eq ok = (
  record { id_least = least; id_most = most; asdu_range = ranges },
  omega (arith, lt, least, most, left_eq, (==_iff (asdu_rest left) 0).0 ok),
)

module _ (order : ByteOrder) where
  Accepts-asdu :
      Accepts 117
        (parse_asdu order)
        (λ _ bs out. (x : Sample) × IsSample x × (bs ≡ encode_sample x) × (out ≡ x.asdu ∷ []))
  unfolding parse_asdu
  Accepts-asdu =
      Accepts-mono 117 117 _ _ _ (omega arith)
        (λ _ bs out
            (
              left,
              xs1,
              ys1,
              (id, l, least, most, lt, e1, left_eq),
              f1,
              (
                cnt,
                xs2,
                ys2,
                (cnt_lt, e2),
                f2,
                (
                  rev,
                  xs3,
                  ys3,
                  (rev_lt, e3),
                  f3,
                  (
                    synch,
                    xs4,
                    ys4,
                    (synch_lt, e4),
                    f4,
                    (
                      units,
                      xs5,
                      ys5,
                      (all, len, e5),
                      f5,
                      (_, xs6, ys6, o, q, (e6, o_eq), (ok, e7, q_eq), f6, out_eq),
                    ),
                  ),
                ),
              ),
            ).
          let a : Asdu = record {
            smp_cnt = cnt;
            smp_synch = synch;
            conf_rev = rev;
            units = units;
          } in
          let x : Sample = record { sv_id = id; asdu = a } in
          let ranges : IsAsdu a = record {
            smp_cnt_range = cnt_lt;
            smp_synch_range = synch_lt;
            conf_rev_range = rev_lt;
            units_count = len;
            units_range = all;
          } in
          let (valid, l_eq) = identified-IsSample id a l left least most lt ranges left_eq ok in
          let end : ys5 ≡ [] = f6 ∙ (λ i. e6 i ++ e7 i) in
          let data_there = f5 ∙ (λ i. e5 i ++ end i) ∙ append-nil (encode_dataset a) in
          let synch_there = f4 ∙ (λ i. e4 i ++ data_there i) in
          let rev_there = f3 ∙ (λ i. e3 i ++ synch_there i) in
          let cnt_there = f2 ∙ (λ i. e2 i ++ rev_there i) in
          let id_there = e1 ∙ ap (λ z. 0x30 ∷ z ∷ 0x80 ∷ length id ∷ id) l_eq in
          (x, valid, f1 ∙ (λ i. id_there i ++ cnt_there i), out_eq ∙ (λ i. o_eq i ++ q_eq i)))
        (Accepts-then 38 79 (parse_sv_id order) _ _ _ (Accepts-id order) (λ left.
          Accepts-then 4 75 (parse_smp_cnt order) _ _ _ (Accepts-cnt order) (λ cnt.
            Accepts-then 6 69 (parse_conf_rev order) _ _ _ (Accepts-rev order) (λ rev.
              Accepts-then 3 66 (parse_smp_synch order) _ _ _ (Accepts-synch order) (λ synch.
                Accepts-then 66 0 (parse_dataset order) _ _ _ (Accepts-dataset order) (λ units.
                  Accepts-bind 0 0
                    (push_back
                      (record { smp_cnt = cnt; smp_synch = synch; conf_rev = rev; units = units }))
                    _ _ _ (Accepts-push_back _) (λ _. Accepts-require (asdu_rest left == 0))))))))

  -- A number of ASDUs is read where as many encoded ones stand.
  pub Accepts-asdus :
      (n : ℕ)
      → Accepts (n * 117) (parse_asdus order n) (λ _ bs out.
        (xs : List Sample) × (length xs ≡ n)
        × All IsSample xs
        × (bs ≡ encode_samples xs)
        × (out ≡ asdus_of xs))
  unfolding parse_asdus
  Accepts-asdus zero =
      Accepts-mono 0 (0 * 117) _ _ _ (omega arith) (λ _ bs out (_, e, e'). ([], refl, tt, e, e'))
        (Accepts-return tt)
  Accepts-asdus (suc n) =
      Accepts-mono (117 + n * 117) (suc n * 117) _ _ _ (omega arith)
        (λ _ bs out (_, ys, zs, o, q, (x, h, e, e'), (xs, len, hs, e2, e3), e4, e5).
          (x ∷ xs, omega (arith, len), (h, hs), e4 ∙ (λ i. e i ++ e2 i), e5 ∙ (λ i. e' i ++ e3 i)))
        (Accepts-bind 117 (n * 117) (parse_asdu order) _ _ _ Accepts-asdu (λ _. Accepts-asdus n))
