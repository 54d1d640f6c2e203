-- ===== src/Pipeline/Crash.antt =====
-- `PipelineBuilder::stop` (include/iec_core/pipeline_builder.h), called before the engine has handed
-- in a first buffer.
use bpf_program.Base.{
  ◌≤◌, ◌≡◌, ℕ, refl, sym, ap, ◌∙◌, false, Bool-cases, inl, inr, ltb, List, [], ◌∷◌, ◌++◌,
}
use bpf_program.Bytes.{ByteOrder}
use bpf_program.Buffer.{StaticBuffer, get_free_size}
use bpf_program.Parser.{parse}
use bpf_program.Parser.Total.{parse_frames_over}
use bpf_program.Validator.{update}
use bpf_program.Points.{Float}
use bpf_program.Exchange.Blocking.{
  waiting, passed, call_get, call_set, wake_get, wake_set, move_in, move_out, passed-filled,
}
use bpf_program.Engine.{Arrival, read_to, threshold}
use bpf_program.Handler.{
  NumberCrusher, goes_on, terminated, IsOn, and_on, crush, after_parse, digest_asdus, after_update,
}
use bpf_program.Pipeline.{
  Pipeline, working, launched, new_handler, poll, end_wait_set, hand_in, ask, end_wait_get,
  take_out, stop_engine, stop_handler, raise, lower, join, Step, polls, wakes_set, hands_in, asks,
  wakes_get, takes_out, stops_engine, stops_handler, raises, lowers, joins, Reach, here, next,
}
use bpf_program.Pipeline.Total.{IsBeforeReset}

append-ne-nil : {A : Type 0} (xs : List A) (x : A) → ¬ (xs ++ (x ∷ []) ≡ [])
append-ne-nil [] x e = cc
append-ne-nil (y ∷ ys) x e = cc

sent-poll : {F : Type 0} (a : Arrival) (p : Pipeline F) → (poll a p).exchange.sent ≡ p.exchange.sent
unfolding poll call_set
sent-poll a p = elim (Bool-cases (ltb (get_free_size (read_to a p.buffer)) threshold)) [
  | inl full ↦ rw full refl
  | inr free ↦ rw free refl
]

module _ {F : Type 0} (f : Float F) (order : ByteOrder) where
  -- A buffer with nothing to read gives an empty sequence, on which the validator throws.
  crush-over :
      (b : StaticBuffer) (c : NumberCrusher F)
      → b.written ≤ b.offset
      → c.parser.sequence ≡ []
      → crush f order b c ≡ terminated
  unfolding crush parse after_parse digest_asdus after_update update
  crush-over b c h e =
      let s = record c.parser { buffer = b } in rw (parse_frames_over order _ s h, e) refl

  module _ (socket : ℕ → Arrival) where
    -- Raising the flag lets the handler take what is stored, whatever that is.
    take_stored :
        (p : Pipeline F)
        → p.stage ≡ working
        → p.exchange.reader ≡ waiting
        → IsOn p.handler
        → and_on p.handler (crush f order p.exchange.storage) ≡ terminated
        → (q : Pipeline F) × Reach f order socket p q × (q.handler ≡ terminated)
    unfolding stop_engine stop_handler raise end_wait_get wake_get take_out
    take_stored p g r on ends =
        let raised_at = raise (stop_handler (stop_engine p)) in
        let woken = end_wait_get raised_at in
        let path =
          next
            (next
              (next (next (next here on (stops_engine g)) on (stops_handler refl)) on (raises refl))
              on (wakes_get r refl))
            on (takes_out p.exchange.storage refl) in
        (take_out f order p.exchange.storage woken, path, ends)

    -- Until a first buffer is handed in.
    record IsUntouched (stored read : StaticBuffer) (p : Pipeline F) : Type 0 where
      storage : p.exchange.storage ≡ stored
      empty : p.exchange.is_filled ≡ false
      reader : ¬ (p.exchange.reader ≡ passed)
      handler : p.handler ≡ goes_on (new_handler read)

    poll-IsUntouched :
        (stored read : StaticBuffer) (a : Arrival) (p : Pipeline F)
        → IsUntouched stored read p
        → IsUntouched stored read (poll a p)
    unfolding poll call_set
    poll-IsUntouched stored read a p u =
        elim (Bool-cases (ltb (get_free_size (read_to a p.buffer)) threshold)) [
          | inl full ↦ rw full (record {
            storage = u.storage;
            empty = u.empty;
            reader = u.reader;
            handler = u.handler;
          })
          | inr free ↦ rw free (record {
            storage = u.storage;
            empty = u.empty;
            reader = u.reader;
            handler = u.handler;
          })
        ]

    Step-IsUntouched :
        (stored read : StaticBuffer) (p q : Pipeline F)
        → Step f order socket p q
        → IsBeforeReset q.stage
        → q.exchange.sent ≡ []
        → (IsBeforeReset p.stage → p.exchange.sent ≡ [] → IsUntouched stored read p)
        → IsUntouched stored read q
    unfolding poll hand_in take_out end_wait_set ask end_wait_get stop_engine stop_handler raise
        lower join call_get call_set wake_get wake_set move_in move_out
    Step-IsUntouched stored read p q (polls on out) early none_sent i =
        poll-IsUntouched stored read (socket p.round) p
          (i early (sym (sent-poll (socket p.round) p) ∙ none_sent))
    Step-IsUntouched stored read p q (wakes_set w e) early none_sent i =
        let u = i early none_sent in
        record { storage = u.storage; empty = u.empty; reader = u.reader; handler = u.handler }
    Step-IsUntouched stored read p q (hands_in w) early none_sent i =
        absurd (append-ne-nil p.exchange.sent p.buffer none_sent)
    Step-IsUntouched stored read p q (asks on out) early none_sent i =
        let u = i early none_sent in
        record {
          storage = u.storage;
          empty = u.empty;
          reader = λ through. absurd (cc (u.empty, passed-filled p.exchange.is_filled through));
          handler = u.handler;
        }
    Step-IsUntouched stored read p q (wakes_get w e) early none_sent i =
        let u = i early none_sent in absurd (cc (u.empty, e))
    Step-IsUntouched stored read p q (takes_out left w) early none_sent i =
        absurd ((i early none_sent).reader w)
    Step-IsUntouched stored read p q (stops_engine g) early none_sent i =
        let u = i (rw g tt) none_sent in
        record { storage = u.storage; empty = u.empty; reader = u.reader; handler = u.handler }
    Step-IsUntouched stored read p q (stops_handler g) early none_sent i =
        let u = i (rw g tt) none_sent in
        record { storage = u.storage; empty = u.empty; reader = u.reader; handler = u.handler }
    Step-IsUntouched stored read p q (raises g) early none_sent i = absurd early
    Step-IsUntouched stored read p q (lowers g) early none_sent i = absurd early
    Step-IsUntouched stored read p q (joins g a b c d) early none_sent i = absurd early

    Reach-IsUntouched :
        (own stored read : StaticBuffer) (p : Pipeline F)
        → Reach f order socket (launched own stored read) p
        → IsBeforeReset p.stage
        → p.exchange.sent ≡ []
        → IsUntouched stored read p
    Reach-IsUntouched own stored read p here early none_sent = record {
      storage = refl;
      empty = refl;
      reader = λ through. absurd (cc);
      handler = refl;
    }
    Reach-IsUntouched own stored read p (next {q = m} reach on step) early none_sent =
        Step-IsUntouched stored read m p step early none_sent
          (λ e n. Reach-IsUntouched own stored read m reach e n)

    -- While the exchange's buffer is as it was constructed, with nothing to read, and the handler
    -- waits in `get` for a first value, a call of `stop` can come to where the validator's exception
    -- leaves the handler's thread, which ends the program.
    pub stop-Crashes :
        (own stored read : StaticBuffer) (p : Pipeline F)
        → stored.written ≤ stored.offset
        → Reach f order socket (launched own stored read) p
        → p.stage ≡ working
        → p.exchange.sent ≡ []
        → p.exchange.reader ≡ waiting
        → (q : Pipeline F) × Reach f order socket p q × (q.handler ≡ terminated)
    stop-Crashes own stored read p over reach g none_sent r =
        let u = Reach-IsUntouched own stored read p reach (rw g tt) none_sent in
        let ends : crush f order p.exchange.storage (new_handler read) ≡ terminated =
          rw u.storage (crush-over stored (new_handler read) over refl) in
        take_stored p g r (rw u.handler tt)
          (ap (λ h. and_on h (crush f order p.exchange.storage)) u.handler ∙ ends)
