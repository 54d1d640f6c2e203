-- ===== src/Exchange/Monitor/Matches.antt =====
-- What `utils::ValueExchangeBlocking` (include/iec_core/utils/value_exchange.h) can do whole block by
-- whole block, its threads can do with the mutex and the condition variable.
use bpf_program.Base.{true, false, not, ◌≡◌, refl, ap, ◌∙◌, arith}
use bpf_program.Exchange.Blocking.{
  Blocking, Place, outside, waiting, passed, call_get, call_set, wake_get, wake_set, move_out,
  move_in, fresh, look_get, look_set,
}
use bpf_program.Exchange.Blocking as Blocking
use bpf_program.Exchange.Monitor.{
  Spot, away, locking, testing, asleep, entering, moving, notifying, Monitor, retry, wake, new,
  get_look, get_lock, get_test, get_enter, get_move, get_notify, set_look, set_lock, set_test,
  set_enter, set_move, set_notify, looks_get, locks_get, tests_get, enters_get, moves_out,
  notifies_set, looks_set, locks_set, tests_set, enters_set, moves_in, notifies_get, Reach,
}
use bpf_program.Exchange.Monitor.Awake.{IsAwake, Reach-IsAwake}
use bpf_program.Exchange.Monitor.Refine.{place, view, place-look_get, place-look_set, Reach-view}
use bpf_program.Exchange.Monitor.Frees.{
  none_left, then, Gets, setter-Frees, getter-Frees, after_Frees, place-wake,
}

module _ {T : Type 0} where
  -- The getter comes out of its wait.
  get-locks :
      (m : Monitor T)
      → m.is_filled ≡ true
      → m.getter ≡ locking
      → m.locked ≡ false
      → Gets m (wake_get (view m))
  unfolding get_lock get_test wake_get
  get-locks m full e free = (
    get_test (get_lock m),
    then (then none_left (locks_get e free)) (tests_get refl),
    ap (λ b. record (view m) { reader = place (retry (b)) }) full,
  )

  get-wakes :
      (s : Spot) (m : Monitor T)
      → m.getter ≡ s
      → place s ≡ waiting
      → m.is_filled ≡ true
      → IsAwake m
      → Gets m (wake_get (view m))
  unfolding get_test wake_get
  get-wakes testing m e h full i = (
    get_test m,
    then none_left (tests_get e),
    ap (λ b. record (view m) { reader = place (retry (b)) }) full,
  )
  get-wakes locking m e h full i =
      let f = setter-Frees m.setter m refl full (ground arith) i in
      after_Frees f wake_get (
        get-locks f.now (ap (λ (b : Blocking T). b.is_filled) f.same ∙ full) (f.spot ∙ ap wake e)
          f.free)
  get-wakes asleep m e h full i =
      let f = setter-Frees m.setter m refl full (ground arith) i in
      after_Frees f wake_get (
        get-locks f.now (ap (λ (b : Blocking T). b.is_filled) f.same ∙ full) (f.spot ∙ ap wake e)
          f.free)
  get-wakes away m e h full i = absurd (cc)
  get-wakes entering m e h full i = absurd (cc)
  get-wakes moving m e h full i = absurd (cc)
  get-wakes notifying m e h full i = absurd (cc)

  get-moves :
      (s : Spot) (m : Monitor T) (x : T)
      → m.getter ≡ s
      → place s ≡ passed
      → IsAwake m
      → Gets m (move_out (view m) x)
  unfolding get_enter get_move move_out
  get-moves moving m x e h i = (get_move m x, then none_left (moves_out x e), refl)
  get-moves entering m x e h i =
      let full : m.is_filled ≡ true = ground arith in
      let f = setter-Frees m.setter m refl full (ground arith) i in
      after_Frees f (λ b. move_out b x)
        (
          get_move (get_enter f.now) x,
          then (then none_left (enters_get (f.spot ∙ ap wake e) f.free)) (moves_out x refl),
          refl,
        )
  get-moves away m x e h i = absurd (cc)
  get-moves locking m x e h i = absurd (cc)
  get-moves testing m x e h i = absurd (cc)
  get-moves asleep m x e h i = absurd (cc)
  get-moves notifying m x e h i = absurd (cc)

  get-calls :
      (s : Spot) (m : Monitor T) → m.getter ≡ s → place s ≡ outside → Gets m (call_get (view m))
  unfolding get_look get_notify call_get
  get-calls away m e h = (
    get_look m,
    then none_left (looks_get e),
    ap (λ p. record (view m) { reader = p }) (place-look_get m.is_filled),
  )
  get-calls notifying m e h = (
    get_look (get_notify m),
    then (then none_left (notifies_set e)) (looks_get refl),
    ap (λ p. record (view (get_notify m)) { reader = p }) (place-look_get m.is_filled)
        ∙ ap (λ p. record (view m) { writer = p; reader = look_get m.is_filled })
            (place-wake m.setter),
  )
  get-calls locking m e h = absurd (cc)
  get-calls testing m e h = absurd (cc)
  get-calls asleep m e h = absurd (cc)
  get-calls entering m e h = absurd (cc)
  get-calls moving m e h = absurd (cc)

  -- The setter comes out of its wait.
  set-locks :
      (m : Monitor T)
      → m.is_filled ≡ false
      → m.setter ≡ locking
      → m.locked ≡ false
      → Gets m (wake_set (view m))
  unfolding set_lock set_test wake_set
  set-locks m empty e free = (
    set_test (set_lock m),
    then (then none_left (locks_set e free)) (tests_set refl),
    ap (λ b. record (view m) { writer = place (retry (not b)) }) empty,
  )

  set-wakes :
      (s : Spot) (m : Monitor T)
      → m.setter ≡ s
      → place s ≡ waiting
      → m.is_filled ≡ false
      → IsAwake m
      → Gets m (wake_set (view m))
  unfolding set_test wake_set
  set-wakes testing m e h empty i = (
    set_test m,
    then none_left (tests_set e),
    ap (λ b. record (view m) { writer = place (retry (not b)) }) empty,
  )
  set-wakes locking m e h empty i =
      let f = getter-Frees m.getter m refl empty (ground arith) i in
      after_Frees f wake_set (
        set-locks f.now (ap (λ (b : Blocking T). b.is_filled) f.same ∙ empty) (f.spot ∙ ap wake e)
          f.free)
  set-wakes asleep m e h empty i =
      let f = getter-Frees m.getter m refl empty (ground arith) i in
      after_Frees f wake_set (
        set-locks f.now (ap (λ (b : Blocking T). b.is_filled) f.same ∙ empty) (f.spot ∙ ap wake e)
          f.free)
  set-wakes away m e h empty i = absurd (cc)
  set-wakes entering m e h empty i = absurd (cc)
  set-wakes moving m e h empty i = absurd (cc)
  set-wakes notifying m e h empty i = absurd (cc)

  set-moves :
      (s : Spot) (m : Monitor T) (x : T)
      → m.setter ≡ s
      → place s ≡ passed
      → IsAwake m
      → Gets m (move_in (view m) x)
  unfolding set_enter set_move move_in
  set-moves moving m x e h i = (set_move m x, then none_left (moves_in x e), refl)
  set-moves entering m x e h i =
      let empty : m.is_filled ≡ false = ground arith in
      let f = getter-Frees m.getter m refl empty (ground arith) i in
      after_Frees f (λ b. move_in b x)
        (
          set_move (set_enter f.now) x,
          then (then none_left (enters_set (f.spot ∙ ap wake e) f.free)) (moves_in x refl),
          refl,
        )
  set-moves away m x e h i = absurd (cc)
  set-moves locking m x e h i = absurd (cc)
  set-moves testing m x e h i = absurd (cc)
  set-moves asleep m x e h i = absurd (cc)
  set-moves notifying m x e h i = absurd (cc)

  set-calls :
      (s : Spot) (m : Monitor T) → m.setter ≡ s → place s ≡ outside → Gets m (call_set (view m))
  unfolding set_look set_notify call_set
  set-calls away m e h = (
    set_look m,
    then none_left (looks_set e),
    ap (λ p. record (view m) { writer = p }) (place-look_set m.is_filled),
  )
  set-calls notifying m e h = (
    set_look (set_notify m),
    then (then none_left (notifies_get e)) (looks_set refl),
    ap (λ p. record (view (set_notify m)) { writer = p }) (place-look_set m.is_filled)
        ∙ ap (λ p. record (view m) { reader = p; writer = look_set m.is_filled })
            (place-wake m.getter),
  )
  set-calls locking m e h = absurd (cc)
  set-calls testing m e h = absurd (cc)
  set-calls asleep m e h = absurd (cc)
  set-calls entering m e h = absurd (cc)
  set-calls moving m e h = absurd (cc)

  Step-Gets : {m : Monitor T} {b : Blocking T} → Blocking.Step (view m) b → IsAwake m → Gets m b
  Step-Gets {m} (Blocking.calls_get h) i = get-calls m.getter m refl h
  Step-Gets {m} (Blocking.wakes_get h full) i = get-wakes m.getter m refl h full i
  Step-Gets {m} (Blocking.moves_out left h) i = get-moves m.getter m left refl h i
  Step-Gets {m} (Blocking.calls_set h) i = set-calls m.setter m refl h
  Step-Gets {m} (Blocking.wakes_set h empty) i = set-wakes m.setter m refl h empty i
  Step-Gets {m} (Blocking.moves_in value h) i = set-moves m.setter m value refl h i

  -- In every order of the steps of one getting and one setting thread from a new exchange: what is
  -- seen of the state is reached in the exchange whose steps are whole blocks under the mutex, and
  -- each step which that exchange can do there, the two threads can bring about by steps of their
  -- own, without a wake-up that no notification makes.
  pub Reach-Gets :
      (x : T) {m : Monitor T}
      → Reach (new x) m
      → Blocking.Reach (fresh x) (view m) × ((b : Blocking T) → Blocking.Step (view m) b → Gets m b)
  Reach-Gets x r = (Reach-view x r, λ b s. Step-Gets s (Reach-IsAwake x r))
