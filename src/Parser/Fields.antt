-- ===== src/Parser/Fields.antt =====
-- What the parser of include/iec_core/iec/iec_parser.h accepts as the parts of an ASDU.
use mathlib.Core.List.{append-nil}
use mathlib.Core.Path.{subst}
use bpf_program.Base.{
  ℕ, zero, suc, ◌+◌, ◌*◌, ◌%◌, ◌^◌, ◌≤◌, ◌<◌, ◌≡◌, refl, sym, ap, ◌∙◌, arith, not, ◌||◌, List, [],
  ◌∷◌, ◌++◌, ltb, length, All,
}
use bpf_program.Base.Int.{to_i32, of_i32, to_i32-IsI32}
use bpf_program.Bytes.{ByteOrder, to_be}
use bpf_program.Asdu.{IsDataUnit}
use bpf_program.Parser.{
  read_byte, read_word, read_dword, parse_data_unit, parse_data_units, parse_sv_id, parse_smp_cnt,
  parse_conf_rev, parse_smp_synch, parse_dataset,
}
use bpf_program.Parser.State.{pass, sub_u8}
use bpf_program.Parser.Encode.{encode_unit, encode_units}
use bpf_program.Parser.Accepts.{Accepts, Accepts-mono, Accepts-return, Plain}
use bpf_program.Parser.Accepts.Words.{
  Accepts-pass, Accepts-read_byte, Accepts-read_word, Accepts-read_dword,
}
use bpf_program.Parser.Accepts.Then.{
  Accepts-word-then, Accepts-then, Accepts-require-then, Accepts-expect-then,
}

of_i32-to_i32 : (w : ℕ) → w < 2 ^ 32 → of_i32 (to_i32 w) ≡ w
of_i32-to_i32 w h = ground arith

abbrev pub IdForm : ℕ → List ℕ → Type 0
IdForm left bs =
    (id : List ℕ) × (l : ℕ) × (10 ≤ length id)
    × (length id ≤ 34)
    × (l < 2 ^ 8)
    × (bs ≡ 0x30 ∷ l ∷ 0x80 ∷ length id ∷ id)
    × (left ≡ sub_u8 l (1 + 1 + length id))

module _ (order : ByteOrder) where
  Accepts-unit :
      Accepts 8 (parse_data_unit order) (Plain (λ u bs. IsDataUnit u × (bs ≡ encode_unit u)))
  unfolding parse_data_unit
  Accepts-unit =
      Accepts-mono 8 8 _ _ _ (omega arith)
        (λ u bs out (mag, ys, lt, e, (quality, zs, lt2, e2, (bits, ws, lt3, e3, (same, e4, e5)))).
          let words : bs ≡ to_be 4 mag ++ (to_be 2 quality ++ to_be 2 bits) =
            e
            ∙ ap (λ l. to_be 4 mag ++ l)
                (e2 ∙ ap (λ l. to_be 2 quality ++ l) (e3 ∙ ap (λ l. to_be 2 bits ++ l) e4)) in
          let spelled =
            words
            ∙ ap (λ w. to_be 4 w ++ (to_be 2 quality ++ to_be 2 bits))
                (sym (of_i32-to_i32 mag lt)) in
          subst (λ v. (IsDataUnit v × (bs ≡ encode_unit v)) × (out ≡ [])) (sym same)
            (
              (
                record {
                  inst_mag_range = to_i32-IsI32 mag lt;
                  quality_range = lt2;
                  bitset_range = lt3;
                },
                spelled,
              ),
              e5,
            ))
        (Accepts-word-then 4 (2 ^ 32) 4 (read_dword order) _ _ (Accepts-read_dword order) (λ mag.
          Accepts-word-then 2 (2 ^ 16) 2 (read_word order) _ _ (Accepts-read_word order) (λ quality.
            Accepts-word-then 2 (2 ^ 16) 0 (read_word order) _ _ (Accepts-read_word order) (λ bits.
              Accepts-return
                (record { inst_mag = to_i32 mag; quality = quality; bitset = bits })))))

  Accepts-units :
      (n : ℕ)
      → Accepts
          (n * 8)
          (parse_data_units order n)
          (Plain (λ us bs. All IsDataUnit us × (length us ≡ n) × (bs ≡ encode_units us)))
  unfolding parse_data_units
  Accepts-units zero =
      Accepts-mono 0 (0 * 8) _ _ _ (omega arith)
        (λ us bs out (same, e, e').
          subst (λ v. (All IsDataUnit v × (length v ≡ 0) × (bs ≡ encode_units v)) × (out ≡ []))
            (sym same) ((tt, refl, e), e'))
        (Accepts-return [])
  Accepts-units (suc n) =
      Accepts-mono (8 + (n * 8 + 0)) (suc n * 8) _ _ _ (omega arith)
        (λ us bs out (v, xs, ys, (hv, ev), e, (vs, zs, ws, (hvs, len, evs), e2, (same, e3, e4))).
          let spelled : bs ≡ encode_units (v ∷ vs) =
            e ∙ (λ i. ev i ++ (e2 ∙ (λ j. evs j ++ e3 j) ∙ append-nil (encode_units vs)) i) in
          subst (λ l. (All IsDataUnit l × (length l ≡ suc n) × (bs ≡ encode_units l)) × (out ≡ []))
            (sym same) (((hv, hvs), omega (arith, len), spelled), e4))
        (Accepts-then 8 (n * 8 + 0) (parse_data_unit order) _ _ _ Accepts-unit (λ v.
          Accepts-then (n * 8) 0 (parse_data_units order n) _ _ _ (Accepts-units n)
            (λ vs. Accepts-return (v ∷ vs))))

  pub Accepts-id : Accepts 38 (parse_sv_id order) (Plain IdForm)
  unfolding parse_sv_id
  Accepts-id =
      Accepts-mono 38 38 _ _ _ (omega arith)
        (λ left bs out
            (
              ys,
              e,
              (
                l,
                zs,
                lt,
                e2,
                (_, (vs, e3, (k, ws, kt, e4, (ok, (_, id, us, len, e5, (same, e6, e7)))))),
              ),
            ).
          let here : l % 256 ≡ l = omega (arith, lt) in
          let there : k % 256 ≡ length id = omega (arith, kt, len) in
          let spelled = e ∙ (λ i.
            0x30
            ∷ (e2 ∙ (λ j.
                  here j
                  ∷ (e3 ∙ (λ h.
                        0x80
                        ∷ (e4 ∙ (λ g. there g ∷ (e5 ∙ ap (λ z. id ++ z) e6 ∙ append-nil id) g)) h))
                      j))
                i) in
          (
            (
              id,
              l,
              ground (arith, ok, len),
              ground (arith, ok, len),
              lt,
              spelled,
              same ∙ ap (λ n. sub_u8 l (1 + 1 + n)) (sym len),
            ),
            e7,
          ))
        (Accepts-expect-then order 0x30 37 _ _ (
          Accepts-word-then 1 (2 ^ 8) 36 (read_byte order) _ _ (Accepts-read_byte order) (λ l.
            Accepts-require-then (not (ltb l 91 || ltb 115 l)) 36 _ _ (λ _.
              Accepts-expect-then order 0x80 35 _ _ (
                Accepts-word-then 1 (2 ^ 8) 34 (read_byte order) _ _ (Accepts-read_byte order) (λ k.
                  Accepts-require-then (not (ltb k 10 || ltb 34 k)) 34 _ _ (λ ok.
                    Accepts-then 34 0 (pass k) _ _ _
                      (Accepts-pass 34 k (ground (arith, ok)) (omega arith))
                      (λ _. Accepts-return (sub_u8 l (1 + 1 + k))))))))))

  pub Accepts-cnt :
      Accepts 4 (parse_smp_cnt order) (Plain (λ x bs. (x < 2 ^ 16) × (bs ≡ 0x82 ∷ 2 ∷ to_be 2 x)))
  unfolding parse_smp_cnt
  Accepts-cnt =
      Accepts-mono 4 4 _ _ _ (omega arith)
        (λ x bs out (ys, e, (zs, e2, (lt, e3, e4))).
          ((lt, e ∙ (λ i. 0x82 ∷ (e2 ∙ ap (◌∷◌ 2) e3) i)), e4))
        (Accepts-expect-then order 0x82 3 _ _
          (Accepts-expect-then order 2 2 _ _ (Accepts-read_word order)))

  pub Accepts-rev :
      Accepts 6 (parse_conf_rev order) (Plain (λ x bs. (x < 2 ^ 32) × (bs ≡ 0x83 ∷ 4 ∷ to_be 4 x)))
  unfolding parse_conf_rev
  Accepts-rev =
      Accepts-mono 6 6 _ _ _ (omega arith)
        (λ x bs out (ys, e, (zs, e2, (lt, e3, e4))).
          ((lt, e ∙ (λ i. 0x83 ∷ (e2 ∙ ap (◌∷◌ 4) e3) i)), e4))
        (Accepts-expect-then order 0x83 5 _ _
          (Accepts-expect-then order 4 4 _ _ (Accepts-read_dword order)))

  pub Accepts-synch :
      Accepts 3 (parse_smp_synch order) (Plain (λ x bs. (x < 2 ^ 8) × (bs ≡ 0x85 ∷ 1 ∷ x ∷ [])))
  unfolding parse_smp_synch
  Accepts-synch =
      Accepts-mono 3 3 _ _ _ (omega arith)
        (λ x bs out (ys, e, (zs, e2, (lt, e3, e4))).
          let same : x % 256 ≡ x = omega (arith, lt) in
          ((lt, e ∙ (λ i. 0x85 ∷ (e2 ∙ ap (◌∷◌ 1) (e3 ∙ ap (λ z. z ∷ []) same)) i)), e4))
        (Accepts-expect-then order 0x85 2 _ _
          (Accepts-expect-then order 1 1 _ _ (Accepts-read_byte order)))

  pub Accepts-dataset :
      Accepts 66
        (parse_dataset order)
        (Plain (λ us bs. All IsDataUnit us × (length us ≡ 8) × (bs ≡ 0x87 ∷ 64 ∷ encode_units us)))
  unfolding parse_dataset
  Accepts-dataset =
      Accepts-mono 66 66 _ _ _ (omega arith)
        (λ us bs out (ys, e, (zs, e2, ((all, len, e3), e4))).
          ((all, len, e ∙ (λ i. 0x87 ∷ (e2 ∙ ap (◌∷◌ 64) e3) i)), e4))
        (Accepts-expect-then order 0x87 65 _ _
          (Accepts-expect-then order 64 64 _ _ (Accepts-units 8)))
