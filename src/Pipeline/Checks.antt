-- ===== src/Pipeline/Checks.antt =====
-- What the handler of include/iec_core/pipeline_builder.h has been given and has found, while
-- the pipeline works on encoded frames.
use mathlib.Core.List.{append_assoc}
use mathlib.Core.Path.{subst}
use bpf_program.Base.{ℕ, ◌≡◌, ◌↔◌, refl, sym, ap, ◌∙◌, Option, List, [], ◌∷◌, ◌++◌, All, concat}
use bpf_program.Bytes.{ByteOrder}
use bpf_program.Buffer.{StaticBuffer}
use bpf_program.Asdu.{Asdu}
use bpf_program.Parser.Encode.{Frame, frames_asdus}
use bpf_program.Points.{Float}
use bpf_program.Validator.Chain.{GoesOn, Fits}
use bpf_program.Validator.{initial}
use bpf_program.Exchange.Blocking.{pending}
use bpf_program.Engine.Frames.{IsPacket}
use bpf_program.Handler.{crush_all, IsOn}
use bpf_program.Handler.Refine.{AreFilled}
use bpf_program.Handler.Gapless.{
  IsNonempty, trans_iff, append-IsNonempty, frames_asdus-append, frames_asdus-IsNonempty,
  crush_all-Fits,
}
use bpf_program.Pipeline.{Pipeline, working, new_handler, launched, Reach}
use bpf_program.Pipeline.Packing.{found}
use bpf_program.Pipeline.Works.{came, IsEmpty, socket, Reach-Works}

-- Each sample count follows the one before it.
abbrev pub Gapless : List Asdu → Type 0
Gapless [] = Unit
Gapless (x ∷ xs) = GoesOn x.smp_cnt xs

-- Buffers one behind the other hold groups one behind the other.
record Split (groups : List (List Frame)) (bs cs : List StaticBuffer) : Type 0 where
  front : List (List Frame)
  back : List (List Frame)
  groups_eq : concat groups ≡ concat front ++ concat back
  front_eq : AreFilled front bs
  nonempty : All IsNonempty front

AreFilled-Split :
    (groups : List (List Frame)) (bs cs : List StaticBuffer)
    → AreFilled groups (bs ++ cs)
    → All IsNonempty groups
    → Split groups bs cs
AreFilled-Split groups [] cs h n = record {
  front = [];
  back = groups;
  groups_eq = refl;
  front_eq = tt;
  nonempty = tt;
}
AreFilled-Split [] (b ∷ bs) cs h n = absurd h
AreFilled-Split (g ∷ gs) (b ∷ bs) cs (h, hs) (n, ns) =
    let s = AreFilled-Split gs bs cs hs ns in
    record {
      front = g ∷ s.front;
      back = s.back;
      groups_eq =
          ap (λ l. g ++ l) s.groups_eq ∙ sym (append_assoc g (concat s.front) (concat s.back));
      front_eq = (h, s.front_eq);
      nonempty = (n, s.nonempty);
    }

Fits-Gapless : (xs : List Asdu) → IsNonempty xs → Fits initial 0 xs ↔ Gapless xs
Fits-Gapless [] h = absurd h
Fits-Gapless (x ∷ xs) h = (λ g. g, λ g. g)

module _ {F : Type 0} (f : Float F) (order : ByteOrder) (network : ℕ → Option Frame) where
  crush_all-Gapless :
      (groups : List (List Frame)) (bs : List StaticBuffer) (read : StaticBuffer)
      → AreFilled groups bs
      → All IsNonempty groups
      → IsOn (crush_all f order bs (new_handler read)) ↔ Gapless (frames_asdus (concat groups))
  unfolding crush_all
  crush_all-Gapless [] [] read h n = (λ _. tt, λ _. tt)
  crush_all-Gapless (g ∷ gs) (b ∷ bs) read h n =
      let some_asdu = subst IsNonempty (sym (frames_asdus-append g (concat gs))) (
        append-IsNonempty (frames_asdus g) (frames_asdus (concat gs))
          (frames_asdus-IsNonempty g n.0 h.0.valid)) in
      trans_iff (crush_all-Fits f order (g ∷ gs) (b ∷ bs) (new_handler read) refl refl tt n h)
        (Fits-Gapless (frames_asdus (concat (g ∷ gs))) some_asdu)
  crush_all-Gapless [] (b ∷ bs) read h n = absurd h
  crush_all-Gapless (g ∷ gs) [] read h n = absurd h

  -- The frames that the handler has been given are the first that came, in whole buffers, and the
  -- handler goes on exactly if their sample counts have no gap.
  pub record Checks (p : Pipeline F) : Type 0 where
    pub groups : List (List Frame)
    pub rest : List Frame
    pub account : came network p.round ≡ concat groups ++ rest
    pub received_eq : AreFilled groups p.exchange.received
    pub outcome : IsOn p.handler ↔ Gapless (frames_asdus (concat groups))

  -- What comes in each round is nothing or an encoded frame of fewer than 800 bytes, the engine's
  -- buffer starts empty with room for a packet, and `stop` has not been called: then, in every
  -- order of the steps of the engine's and the handler's thread, the buffers received hold, in
  -- order, the first frames that came, each once, and the handler has not thrown exactly if the
  -- sample counts of these go on with no gap.
  pub Reach-Checks :
      (own stored read : StaticBuffer) {p : Pipeline F}
      → IsEmpty own
      → ((n : ℕ) → All IsPacket (found (network n)))
      → p.stage ≡ working
      → Reach f order (socket network) (launched own stored read) p
      → Checks p
  Reach-Checks own stored read {p} empty packets g r =
      let w = Reach-Works f order network own stored read empty packets g r in
      let x = p.exchange in
      let s =
        AreFilled-Split w.packed.groups x.received (pending x.is_filled x.storage)
          (subst (AreFilled w.packed.groups) w.delivers.account w.packed.sent_eq)
          w.packed.nonempty in
      record {
        groups = s.front;
        rest = concat s.back ++ w.packed.last;
        account =
            w.packed.account
            ∙ ap (λ l. l ++ w.packed.last) s.groups_eq
            ∙ append_assoc (concat s.front) (concat s.back) w.packed.last;
        received_eq = s.front_eq;
        outcome =
            subst (λ h. IsOn h ↔ Gapless (frames_asdus (concat s.front))) (sym w.handled)
              (crush_all-Gapless s.front x.received read s.front_eq s.nonempty);
      }
