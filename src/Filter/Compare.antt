-- ===== src/Filter/Compare.antt =====
-- `SvIdCmp` of bpf/ethernet-parse.c.
use bpf_program.Base.{
  ℕ, ◌<◌, ◌≡◌, refl, ap, ◌∙◌, ◌↔◌, true, none, some, List, [], ◌∷◌, ◌++◌, length, take, drop,
  get_or, All, ◌==◌, ==_iff, lt→ltb, Bool-cases, arith, length-append, inl, inr,
}
use mathlib.Core.List.{append_assoc}
use bpf_program.Bytes.{of_be}
use bpf_program.Filter.{Load, drop_unless, same_from, sv_id_cmp}
use bpf_program.Filter.Loads.{IsLoad}

module _ {load : Load} (is : IsLoad load) where
  load_byte :
      (front : List ℕ) (b : ℕ) (back : List ℕ)
      → load (front ++ (b ∷ back)) (length front) 1 ≡ some b
  load_byte front b back =
      let value : of_be (b ∷ []) ≡ b = omega arith in is.inside front (b ∷ []) back ∙ ap some value

  load_end : (front : List ℕ) → load (front ++ []) (length front) 1 ≡ none
  load_end front = is.outside (front ++ []) (length front) 1 (omega (arith, length-append front []))

  -- The loop one character further on.
  same_from-cons :
      (front : List ℕ) (c : ℕ) (cs : List ℕ) (b : ℕ) (bs : List ℕ)
      → c < 128
      → same_from load (front ++ (b ∷ bs)) (c ∷ cs) (length front)
        ≡ drop_unless
            (b == c)
            (same_from load (front ++ (b ∷ []) ++ bs) cs (length (front ++ (b ∷ []))))
  unfolding same_from
  same_from-cons front c cs b bs h =
      rw
        (
          load_byte front b bs,
          lt→ltb c 128 h,
          append_assoc front (b ∷ []) bs,
          length-append front (b ∷ []),
        )
        refl

  -- The loop finds every character equal exactly where the packet goes on with them.
  pub same_from_iff :
      (front cs rest : List ℕ)
      → All (λ c. c < 128) cs
      → (same_from load (front ++ rest) cs (length front) ≡ some true)
        ↔ (take (length cs) rest ≡ cs)
  unfolding same_from
  same_from_iff front [] rest h = (λ _. refl, λ _. refl)
  same_from_iff front (c ∷ cs) [] h = rw (load_end front) (λ p. absurd (cc), λ p. absurd (cc))
  same_from_iff front (c ∷ cs) (b ∷ bs) h =
      let next = same_from_iff (front ++ (b ∷ [])) cs bs h.1 in
      rw (same_from-cons front c cs b bs h.0) (elim (Bool-cases (b == c)) [
        | inl e ↦ rw e (
            let q : b ≡ c = (==_iff b c).0 e in
            (λ p. let r = next.0 p in cc, λ p. next.1 (ap (λ l. drop 1 l) p)))
        | inr e ↦ rw e (
          λ p. absurd (cc),
          λ p. absurd (let q : (b == c) ≡ true = (==_iff b c).1 (ap (λ l. get_or l 0 0) p) in cc),
        )
      ])

  -- The identifier is accepted exactly where the length that the packet gives is the length of the
  -- setting, and the packet goes on with the setting's characters, which are 7-bit ones.
  pub sv_id_cmp_iff :
      (front cs rest : List ℕ) (count : ℕ)
      → All (λ c. c < 128) cs
      → (sv_id_cmp load cs (front ++ rest) (length front) count ≡ some true)
        ↔ ((length cs ≡ count) × (take (length cs) rest ≡ cs))
  unfolding sv_id_cmp
  sv_id_cmp_iff front cs rest count h =
      let inner = same_from_iff front cs rest h in
      elim (Bool-cases (length cs == count)) [
        | inl e ↦
            let q : length cs ≡ count = (==_iff (length cs) count).0 e in
            rw e (λ p. (q, inner.0 p), λ p. inner.1 p.1)
        | inr e ↦ rw e (
          λ p. absurd (cc),
          λ p.
              absurd (let q : (length cs == count) ≡ true = (==_iff (length cs) count).1 p.0 in cc),
        )
      ]
