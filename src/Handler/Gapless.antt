-- ===== src/Handler/Gapless.antt =====
-- When the loop of include/iec_core/handlers/number_crusher.h goes on: the validator sees the
-- frames of all buffers as one sequence of samples.
use mathlib.Core.List.{append_assoc}
use mathlib.Core.Path.{subst}
use bpf_program.Base.{
  ◌≤◌, ◌<◌, ◌≡◌, ◌↔◌, Bool-cases, inl, inr, refl, sym, ap, ◌∙◌, arith, List, [], ◌∷◌, ◌++◌, ltb,
  length, All, concat, map,
}
use bpf_program.Bytes.{ByteOrder}
use bpf_program.Buffer.{StaticBuffer}
use bpf_program.Asdu.{Asdu}
use bpf_program.Parser.Encode.{Sample, Frame, IsFrame, asdus_of, frames_asdus}
use bpf_program.Validator.{
  Validator, throw_exception, Result, returned, thrown, next_asdu, validate, validate_all, update,
}
use bpf_program.Validator.Chain.{Returns, Fits, update-Fits}
use bpf_program.Points.{Float, convert}
use bpf_program.Handler.{
  Digest, NumberCrusher, Fate, goes_on, terminated, broken, max_points, after_find, flush,
  after_update, digest_asdus, and_on, crush_all, IsOn,
}
use bpf_program.Processing.{Verdict, reported, quiet, empty, find_min_max}
use bpf_program.Handler.Total.{find_min_max-found}
use bpf_program.Handler.Refine.{AreFilled, digest_all, without_parser, crush_all-digest_all}

-- The list has an item.
abbrev pub IsNonempty {ℓ} : {A : Type ℓ} → List A → Type 0
IsNonempty [] = ⊥
IsNonempty (_ ∷ _) = Unit

pub trans_iff : {A B C : Type 0} → A ↔ B → B ↔ C → A ↔ C
trans_iff f g = (λ a. g.0 (f.0 a), λ c. f.1 (g.1 c))

next_asdu-next_asdu :
    (r : Result) (k l : Validator → Result)
    → next_asdu (λ w. next_asdu l (k w)) r ≡ next_asdu l (next_asdu k r)
next_asdu-next_asdu (returned v) k l = refl
next_asdu-next_asdu (thrown v) k l = refl

-- The loop of `update` over two sequences is the loop over one after the other.
pub validate_all-append :
    (xs ys : List Asdu) (v : Validator)
    → validate_all v (xs ++ ys) ≡ next_asdu (λ w. validate_all w ys) (validate_all v xs)
unfolding validate_all
validate_all-append [] ys v = refl
validate_all-append (x ∷ xs) ys v =
    ap (λ k. next_asdu k (validate v x.smp_cnt)) (λ i w. validate_all-append xs ys w i)
    ∙ next_asdu-next_asdu (validate v x.smp_cnt) _ _

update-validate_all :
    (xs : List Asdu) (v : Validator) → IsNonempty xs → update v xs ≡ validate_all v xs
unfolding update
update-validate_all [] v h = absurd h
update-validate_all (x ∷ xs) v h = refl

pub frames_asdus-append :
    (fs gs : List Frame) → frames_asdus (fs ++ gs) ≡ frames_asdus fs ++ frames_asdus gs
frames_asdus-append [] gs = refl
frames_asdus-append (f ∷ fs) gs =
    ap (λ l. asdus_of f.samples ++ l) (frames_asdus-append fs gs)
    ∙ sym (append_assoc (asdus_of f.samples) (frames_asdus fs) (frames_asdus gs))

frames_asdus-concat :
    (groups : List (List Frame)) → concat (map frames_asdus groups) ≡ frames_asdus (concat groups)
frames_asdus-concat [] = refl
frames_asdus-concat (g ∷ gs) =
    ap (λ l. frames_asdus g ++ l) (frames_asdus-concat gs) ∙ sym (frames_asdus-append g (concat gs))

pub append-IsNonempty : {A : Type 0} (xs ys : List A) → IsNonempty xs → IsNonempty (xs ++ ys)
append-IsNonempty [] ys h = absurd h
append-IsNonempty (x ∷ xs) ys h = tt

asdus_of-IsNonempty : (xs : List Sample) → 1 ≤ length xs → IsNonempty (asdus_of xs)
asdus_of-IsNonempty [] h = absurd (omega (arith, h))
asdus_of-IsNonempty (x ∷ xs) h = tt

pub frames_asdus-IsNonempty :
    (g : List Frame) → IsNonempty g → All IsFrame g → IsNonempty (frames_asdus g)
frames_asdus-IsNonempty [] h v = absurd h
frames_asdus-IsNonempty (f ∷ fs) h (v, vs) =
    append-IsNonempty (asdus_of f.samples) (frames_asdus fs) (asdus_of-IsNonempty f.samples v.least)

AreFilled-IsNonempty :
    (groups : List (List Frame)) (bs : List StaticBuffer)
    → AreFilled groups bs
    → All IsNonempty groups
    → All IsNonempty (map frames_asdus groups)
AreFilled-IsNonempty [] [] h n = tt
AreFilled-IsNonempty (g ∷ gs) (b ∷ bs) (h, hs) (n, ns) =
    (frames_asdus-IsNonempty g n h.valid, AreFilled-IsNonempty gs bs hs ns)
AreFilled-IsNonempty [] (b ∷ bs) h n = absurd h
AreFilled-IsNonempty (g ∷ gs) [] h n = absurd h

module _ {F : Type 0} (f : Float F) where
  -- What follows the round goes on with the validator as it is.
  after_find-IsOn :
      (d : Digest F) (verdict : Verdict F) (next : Digest F → Fate (Digest F))
      (rest : Validator → Result)
      → 0 < length d.points
      → find_min_max f d.count d.points ≡ verdict
      → ((e : Digest F) → IsOn (next e) ↔ Returns (rest e.validator))
      → IsOn (and_on (after_find f d verdict) next) ↔ Returns (rest d.validator)
  after_find-IsOn d (reported r n) next rest some_there e h = h _
  after_find-IsOn d (quiet n) next rest some_there e h = h _
  after_find-IsOn d empty next rest some_there e h =
      absurd (find_min_max-found f d.count d.points some_there e)

  flush-IsOn :
      (d : Digest F) (next : Digest F → Fate (Digest F)) (rest : Validator → Result)
      → ((e : Digest F) → IsOn (next e) ↔ Returns (rest e.validator))
      → IsOn (and_on (flush f d) next) ↔ Returns (rest d.validator)
  unfolding flush
  flush-IsOn d next rest h = elim (Bool-cases (ltb max_points (length d.points))) [
    | inl many ↦
        let some_there : 0 < length d.points = ground (arith, many) in
        rw many (after_find-IsOn d (find_min_max f d.count d.points) next rest some_there refl h)
    | inr few ↦ rw few (h d)
  ]

  after_update-IsOn :
      (r : Result) (asdus : List Asdu) (d : Digest F) (next : Digest F → Fate (Digest F))
      (rest : Validator → Result)
      → ((e : Digest F) → IsOn (next e) ↔ Returns (rest e.validator))
      → IsOn (and_on (after_update f asdus d r) next) ↔ Returns (next_asdu rest r)
  unfolding after_update
  after_update-IsOn (returned v) asdus d next rest h =
      flush-IsOn (record d { validator = v; points = convert f asdus d.points }) next rest h
  after_update-IsOn (thrown v) asdus d next rest h = (λ e. e, λ e. e)

  -- The sequences are validated as if they were one.
  digest_all-IsOn :
      (groups : List (List Asdu)) (d : Digest F)
      → All IsNonempty groups
      → IsOn (digest_all f groups d) ↔ Returns (validate_all d.validator (concat groups))
  unfolding digest_asdus validate_all
  digest_all-IsOn [] d h = (λ _. tt, λ _. tt)
  digest_all-IsOn (g ∷ gs) d (h, hs) =
      rw (validate_all-append g (concat gs) d.validator, update-validate_all g d.validator h)
        (after_update-IsOn (validate_all d.validator g) g d (digest_all f gs)
          (λ w. validate_all w (concat gs)) (λ e. digest_all-IsOn gs e hs))

  IsOn-without_parser : (r : Fate (NumberCrusher F)) → IsOn r ↔ IsOn (without_parser f r)
  IsOn-without_parser (goes_on c) = (λ e. e, λ e. e)
  IsOn-without_parser terminated = (λ e. e, λ e. e)
  IsOn-without_parser broken = (λ e. e, λ e. e)

  digest_all-Fits :
      (groups : List (List Asdu)) (d : Digest F)
      → d.validator.strategy ≡ throw_exception
      → IsNonempty groups
      → All IsNonempty groups
      → IsOn (digest_all f groups d)
        ↔ Fits d.validator.state d.validator.captured_smp_sync (concat groups)
  digest_all-Fits [] d t n h = absurd n
  digest_all-Fits (g ∷ gs) d t n h =
      let one =
        update-validate_all (concat (g ∷ gs)) d.validator (append-IsNonempty g (concat gs) h.0) in
      trans_iff (digest_all-IsOn (g ∷ gs) d h) (
        subst
          (λ r. Returns r ↔ Fits d.validator.state d.validator.captured_smp_sync (concat (g ∷ gs)))
          one (update-Fits d.validator (concat (g ∷ gs)) t))

  -- Where the validator throws, and the buffers, of which there is one at least, each hold one
  -- encoded frame or more, the handler's loop goes on behind the last buffer exactly if the sample
  -- counts of all their frames go on with no gap, within the buffers and from one to the next.
  pub crush_all-Fits :
      (order : ByteOrder) (groups : List (List Frame)) (bs : List StaticBuffer)
      (c : NumberCrusher F)
      → c.parser.sequence ≡ []
      → c.digest.validator.strategy ≡ throw_exception
      → IsNonempty groups
      → All IsNonempty groups
      → AreFilled groups bs
      → IsOn (crush_all f order bs c)
        ↔ Fits c.digest.validator.state c.digest.validator.captured_smp_sync
            (frames_asdus (concat groups))
  crush_all-Fits order [] bs c e t n ns h = absurd n
  crush_all-Fits order (g ∷ gs) bs c e t n ns h =
      let v = c.digest.validator in
      let asdus = map frames_asdus (g ∷ gs) in
      let spec = digest_all-Fits asdus c.digest t tt (AreFilled-IsNonempty (g ∷ gs) bs h ns) in
      let same =
        subst (λ r. IsOn (crush_all f order bs c) ↔ IsOn r)
          (crush_all-digest_all f order (g ∷ gs) bs c e h)
          (IsOn-without_parser (crush_all f order bs c)) in
      subst (λ l. IsOn (crush_all f order bs c) ↔ Fits v.state v.captured_smp_sync l)
        (frames_asdus-concat (g ∷ gs)) (trans_iff same spec)
