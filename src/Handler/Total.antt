-- ===== src/Handler/Total.antt =====
-- `NumberCrusher::run` of include/iec_core/handlers/number_crusher.h on buffers with any bytes.
use mathlib.Core.Path.{subst}
use bpf_program.Base.{
  ℕ, suc, ◌+◌, ap, ◌<◌, ◌≤◌, ◌^◌, ◌≡◌, Bool-cases, inl, inr, refl, sym, arith, List, [], ◌∷◌, ◌++◌,
  get_or, ltb, length, All, All-append, ◌∙◌,
}
use bpf_program.Bytes.{ByteOrder}
use bpf_program.Buffer.Word.{IsBytes}
use bpf_program.Buffer.{StaticBuffer}
use bpf_program.Asdu.{DataUnit, Asdu, IsAsdu, units_per_asdu}
use bpf_program.Parser.State.{ParserState}
use bpf_program.Parser.Total.{max_frame, parse_total}
use bpf_program.Validator.{Result, returned, thrown, update}
use bpf_program.Validator.Types.{IsValidator, AfterIsValidator, update-IsValidator}
use bpf_program.Points.{Float, point_values, convert}
use bpf_program.Processing.{
  Verdict, reported, quiet, empty, find_min_max, judge, adc_mid, position, sign_of, crossings,
}
use bpf_program.Handler.{
  Digest, NumberCrusher, Fate, goes_on, terminated, broken, max_points, after_find, flush,
  after_update, digest_asdus, with_parser, after_parse, and_on, crush, crush_all,
}

-- The bytes are bytes, and what was written is not within the largest frame of the end of the
-- address space.
pub record IsReceived (b : StaticBuffer) : Type 0 where
  pub bytes : IsBytes b.bytes
  pub small : b.written + max_frame ≤ 2 ^ 64

module _ {F : Type 0} (f : Float F) where
  -- Between two rounds.
  pub record IsDigest (d : Digest F) : Type 0 where
    pub validator : IsValidator d.validator
    pub points : All (λ p. length p ≡ units_per_asdu) d.points
    pub few : length d.points ≤ max_points
    pub count : d.count < 2 ^ 64

  pub record IsCrusher (c : NumberCrusher F) : Type 0 where
    pub sequence : c.parser.sequence ≡ []
    pub digest : IsDigest c.digest

  -- An exception may leave the thread's function, nothing else goes wrong.
  abbrev pub Keeps : {A : Type 0} → (A → Type 0) → Fate A → Type 0
  Keeps P (goes_on a) = P a
  Keeps P terminated = Unit
  Keeps P broken = ⊥

  length-point_values : (i : ℕ) (us : List DataUnit) → length (point_values f i us) ≡ length us
  unfolding point_values
  length-point_values i [] = refl
  length-point_values i (u ∷ us) = ap suc (length-point_values (suc i) us)

  convert-All :
      (from : List Asdu) (to : List (List F))
      → All IsAsdu from
      → All (λ p. length p ≡ units_per_asdu) to
      → All (λ p. length p ≡ units_per_asdu) (convert f from to)
  unfolding convert
  convert-All [] to h k = k
  convert-All (a ∷ rest) to (h, hs) k =
      let eight = length-point_values 0 a.units ∙ h.units_count in
      convert-All rest (to ++ (point_values f 0 a.units ∷ [])) hs
        (All-append (λ p. length p ≡ units_per_asdu) to _ k (eight, tt))

  -- A verdict of points that are there, with a count within its type.
  abbrev pub IsSettled : Verdict F → Type 0
  IsSettled (reported r next) = next < 2 ^ 64
  IsSettled (quiet next) = next < 2 ^ 64
  IsSettled empty = ⊥

  judge-IsSettled :
      (count : ℕ) (mins maxs : List F) (best : ℕ × F) (points : List (List F))
      → 0 < length points
      → count < 2 ^ 64
      → IsSettled (judge f count mins maxs best points)
  unfolding judge
  judge-IsSettled count mins maxs best [] some_there h = absurd (omega (arith, some_there))
  judge-IsSettled count mins maxs (selected, magnitude) (p ∷ points) some_there h =
      let mid = get_or (adc_mid f maxs mins) selected f.max in
      let sign = sign_of f (position f selected mid p) in
      elim (Bool-cases (ltb (length (crossings f sign selected mid 1 [] points)) 3)) [
        | inl few ↦ rw few h
        | inr three ↦ rw three (omega arith)
      ]

  pub find_min_max-IsSettled :
      (count : ℕ) (points : List (List F))
      → 0 < length points
      → count < 2 ^ 64
      → IsSettled (find_min_max f count points)
  unfolding find_min_max
  find_min_max-IsSettled count points some_there h = judge-IsSettled count _ _ _ points some_there h

  judge-found :
      (count : ℕ) (mins maxs : List F) (best : ℕ × F) (points : List (List F))
      → 0 < length points
      → ¬ (judge f count mins maxs best points ≡ empty)
  unfolding judge
  judge-found count mins maxs best [] some_there e = absurd (omega (arith, some_there))
  judge-found count mins maxs (selected, magnitude) (p ∷ points) some_there e =
      let mid = get_or (adc_mid f maxs mins) selected f.max in
      let sign = sign_of f (position f selected mid p) in
      elim (Bool-cases (ltb (length (crossings f sign selected mid 1 [] points)) 3)) [
        | inl few ↦ let here = rw few at e in cc
        | inr three ↦ let here = rw three at e in cc
      ]

  -- Where there are points, the first of them is read.
  pub find_min_max-found :
      (count : ℕ) (points : List (List F))
      → 0 < length points
      → ¬ (find_min_max f count points ≡ empty)
  unfolding find_min_max
  find_min_max-found count points some_there e = judge-found count _ _ _ points some_there e

  after_find-IsDigest :
      (d : Digest F) (verdict : Verdict F)
      → IsValidator d.validator
      → IsSettled verdict
      → Keeps IsDigest (after_find f d verdict)
  after_find-IsDigest d (reported r next) v h = record {
    validator = v;
    points = tt;
    few = omega arith;
    count = h;
  }
  after_find-IsDigest d (quiet next) v h = record {
    validator = v;
    points = tt;
    few = omega arith;
    count = h;
  }
  after_find-IsDigest d empty v h = h

  flush-IsDigest :
      (d : Digest F)
      → IsValidator d.validator
      → All (λ p. length p ≡ units_per_asdu) d.points
      → d.count < 2 ^ 64
      → Keeps IsDigest (flush f d)
  unfolding flush
  flush-IsDigest d v eight h = elim (Bool-cases (ltb max_points (length d.points))) [
    | inl many ↦
        let some_there : 0 < length d.points = ground (arith, many) in
        rw many (
          after_find-IsDigest d (find_min_max f d.count d.points) v
            (find_min_max-IsSettled d.count d.points some_there h))
    | inr few ↦ rw few (record { validator = v; points = eight; few = ground arith; count = h })
  ]

  after_update-Keeps :
      (asdus : List Asdu) (d : Digest F) (r : Result)
      → All IsAsdu asdus
      → IsDigest d
      → AfterIsValidator r
      → Keeps IsDigest (after_update f asdus d r)
  unfolding after_update
  after_update-Keeps asdus d (returned v) h i j =
      flush-IsDigest _ j (convert-All asdus d.points h i.points) i.count
  after_update-Keeps asdus d (thrown v) h i j = tt

  digest_asdus-Keeps :
      (asdus : List Asdu) (d : Digest F)
      → All IsAsdu asdus
      → IsDigest d
      → Keeps IsDigest (digest_asdus f asdus d)
  unfolding digest_asdus
  digest_asdus-Keeps asdus d h i =
      after_update-Keeps asdus d (update d.validator asdus) h i
        (update-IsValidator asdus d.validator h i.validator)

  with_parser-Keeps :
      (s : ParserState) (r : Fate (Digest F))
      → s.sequence ≡ []
      → Keeps IsDigest r
      → Keeps IsCrusher (with_parser f s r)
  with_parser-Keeps s (goes_on d) e h = record { sequence = e; digest = h }
  with_parser-Keeps s terminated e h = tt
  with_parser-Keeps s broken e h = h

  pub crush-Keeps :
      (order : ByteOrder) (b : StaticBuffer) (c : NumberCrusher F)
      → IsReceived b
      → IsCrusher c
      → Keeps IsCrusher (crush f order b c)
  unfolding crush after_parse
  crush-Keeps order b c r i =
      let start = record c.parser { buffer = b } in
      let none_yet = subst (All IsAsdu) (sym i.sequence) tt in
      let (asdus, s, ended, all, emptied, _, _) =
        parse_total order start r.bytes r.small none_yet in
      rw ended (
        with_parser-Keeps s (digest_asdus f asdus c.digest) emptied
          (digest_asdus-Keeps asdus c.digest all i.digest))

  pub and_on-Keeps :
      (r : Fate (NumberCrusher F)) (next : NumberCrusher F → Fate (NumberCrusher F))
      → Keeps IsCrusher r
      → ((c : NumberCrusher F) → IsCrusher c → Keeps IsCrusher (next c))
      → Keeps IsCrusher (and_on r next)
  and_on-Keeps (goes_on c) next h k = k c h
  and_on-Keeps terminated next h k = tt
  and_on-Keeps broken next h k = h

  -- On buffers of any bytes, each filled to no point within a largest frame of 2^64, and from a
  -- handler between two rounds, the loop has no undefined behaviour, neither in parse nor by
  -- findMinMax on no points, and every call in it returns or throws. Where it goes on, the parser has an empty sequence, the validator's members and the
  -- counter of findMinMax are within their types, and there are at most 512 points, each of eight
  -- numbers.
  pub crush_all-Keeps :
      (order : ByteOrder) (bs : List StaticBuffer) (c : NumberCrusher F)
      → All IsReceived bs
      → IsCrusher c
      → Keeps IsCrusher (crush_all f order bs c)
  unfolding crush_all
  crush_all-Keeps order [] c h i = i
  crush_all-Keeps order (b ∷ bs) c (h, hs) i =
      and_on-Keeps (crush f order b c) (crush_all f order bs) (crush-Keeps order b c h i)
        (λ c' j. crush_all-Keeps order bs c' hs j)
