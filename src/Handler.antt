-- ===== src/Handler.antt =====
-- `NumberCrusher` (include/iec_core/handlers/number_crusher.h): the loop over the buffers that
-- `exchange->get` gives, one after the other.
pub mod Refine
pub mod Gapless
pub mod Total
pub mod Tests
use bpf_program.Base.{
  ℕ, Bool, true, false, Option, none, some, List, [], ◌∷◌, ◌++◌, ltb, if◌then◌else◌, length,
}
use bpf_program.Bytes.{ByteOrder}
use bpf_program.Buffer.{StaticBuffer}
use bpf_program.Asdu.{Asdu}
use bpf_program.Parser.{Run, finished, faulted, out_of_fuel, parse}
use bpf_program.Parser.State.{ParserState}
use bpf_program.Validator.{Validator, Result, returned, thrown, update}
use bpf_program.Points.{Float, convert}
use bpf_program.Processing.{Verdict, reported, quiet, empty, find_min_max}

-- The members behind the parser, the static counter of `findMinMax` and what that has returned.
pub record Digest (F : Type 0) : Type 0 where
  pub validator : Validator
  pub points : List (List F)
  pub count : ℕ
  pub printed : List (Verdict F)

-- `buffer` is in the parser's state, which reads it.
pub record NumberCrusher (F : Type 0) : Type 0 where
  pub parser : ParserState
  pub digest : Digest F

-- How a round ends: the loop goes on, or an exception leaves the thread's function, which ends
-- the program, or `parse` has undefined behaviour or does not return, or `findMinMax` has undefined
-- behaviour.
pub data Fate (A : Type 0) : Type 0 where
  goes_on : A → Fate A
  terminated broken : Fate A

-- The loop has got to its next round.
abbrev pub IsOn : {A : Type 0} → Fate A → Type 0
IsOn (goes_on _) = Unit
IsOn _ = ⊥

abbrev pub and_on : {A B : Type 0} → Fate A → (A → Fate B) → Fate B
and_on (goes_on a) next = next a
and_on terminated next = terminated
and_on broken next = broken

abbrev pub max_points : ℕ
max_points = 512

module _ {F : Type 0} (f : Float F) where
  -- What follows `findMinMax`, which has no result where it reads `points[0]` of no points.
  abbrev pub after_find : Digest F → Verdict F → Fate (Digest F)
  after_find d (reported r next) =
      goes_on
        (record d { points = []; count = next; printed = d.printed ++ (reported r next ∷ []) })
  after_find d (quiet next) =
      goes_on (record d { points = []; count = next; printed = d.printed ++ (quiet next ∷ []) })
  after_find d empty = broken

  -- `if (points.size() > 512)`
  unfoldable pub flush : Digest F → Fate (Digest F)
  flush d =
      if ltb max_points (length d.points)
      then after_find d (find_min_max f d.count d.points)
      else goes_on d

  -- What follows `validator.update`.
  unfoldable pub after_update : List Asdu → Digest F → Result → Fate (Digest F)
  after_update asdus d (returned v) =
      flush (record d { validator = v; points = convert f asdus d.points })
  after_update asdus d (thrown v) = terminated

  -- What follows `parser.parse`.
  unfoldable pub digest_asdus : List Asdu → Digest F → Fate (Digest F)
  digest_asdus asdus d = after_update asdus d (update d.validator asdus)

  abbrev pub with_parser : ParserState → Fate (Digest F) → Fate (NumberCrusher F)
  with_parser s (goes_on d) = goes_on (record { parser = s; digest = d })
  with_parser s terminated = terminated
  with_parser s broken = broken

  unfoldable pub after_parse : Digest F → Run (List Asdu × ParserState) → Fate (NumberCrusher F)
  after_parse d (finished (asdus, s)) = with_parser s (digest_asdus asdus d)
  after_parse d faulted = broken
  after_parse d out_of_fuel = broken

  unfoldable pub crush : ByteOrder → StaticBuffer → NumberCrusher F → Fate (NumberCrusher F)
  crush order b c = after_parse c.digest (parse order (record c.parser { buffer = b }))

  unfoldable pub crush_all :
      ByteOrder → List StaticBuffer → NumberCrusher F → Fate (NumberCrusher F)
  crush_all order [] c = goes_on c
  crush_all order (b ∷ bs) c = and_on (crush order b c) (crush_all order bs)
