-- ===== src/Exchange/Monitor/Awake.antt =====
-- The mutex and the condition variable of `utils::ValueExchangeBlocking`
-- (include/iec_core/utils/value_exchange.h) do what they are there for.
use bpf_program.Base.{Bool, true, false, ◌&&◌, ◌||◌, ◌≡◌, ◌⊎◌, inl, inr, Bool-cases, refl, arith}
use bpf_program.Exchange.Monitor.{
  Spot, away, locking, testing, asleep, entering, moving, notifying, Monitor, new, get_look,
  get_lock, get_test, get_enter, get_move, get_notify, set_look, set_lock, set_test, set_enter,
  set_move, set_notify, Act, looks_get, locks_get, tests_get, enters_get, moves_out, notifies_set,
  looks_set, locks_set, tests_set, enters_set, moves_in, notifies_get, Step, acts, stirs_get,
  stirs_set, Reach, here, next,
}

-- The thread holds the mutex.
abbrev pub inside : Spot → Bool
inside testing = true
inside moving = true
inside notifying = true
inside _ = false

-- The thread is behind its wait, and in front of its move.
abbrev pub past : Spot → Bool
past entering = true
past moving = true
past _ = false

module _ {T : Type 0} where
  -- One thread at most holds the mutex, and it is locked exactly while one does; behind its wait a
  -- thread finds the flag as it waited for it; and a thread sleeps only while it has to, or while
  -- the other one is about to wake it.
  pub record IsAwake (m : Monitor T) : Type 0 where
    pub exclusive : (inside m.getter && inside m.setter) ≡ false
    pub locked_eq : m.locked ≡ (inside m.getter || inside m.setter)
    pub readable : past m.getter ≡ true → m.is_filled ≡ true
    pub writable : past m.setter ≡ true → m.is_filled ≡ false
    pub getter_sleeps : m.getter ≡ asleep → (m.is_filled ≡ false) ⊎ (m.setter ≡ notifying)
    pub setter_sleeps : m.setter ≡ asleep → (m.is_filled ≡ true) ⊎ (m.getter ≡ notifying)

  Act-IsAwake : {m n : Monitor T} → Act m n → IsAwake m → IsAwake n
  unfolding get_look get_lock get_test get_enter get_move get_notify set_look set_lock set_test
      set_enter set_move set_notify
  Act-IsAwake (looks_get h) i = ground arith
  Act-IsAwake (locks_get h e) i = ground arith
  Act-IsAwake (tests_get h) i = ground arith
  Act-IsAwake (enters_get h e) i = ground arith
  Act-IsAwake (moves_out left h) i = ground arith
  Act-IsAwake (notifies_set h) i = ground arith
  Act-IsAwake (looks_set h) i = ground arith
  Act-IsAwake (locks_set h e) i = ground arith
  Act-IsAwake (tests_set h) i = ground arith
  Act-IsAwake (enters_set h e) i = ground arith
  Act-IsAwake (moves_in value h) i = ground arith
  Act-IsAwake (notifies_get h) i = ground arith

  Step-IsAwake : {m n : Monitor T} → Step m n → IsAwake m → IsAwake n
  Step-IsAwake (acts a) i = Act-IsAwake a i
  Step-IsAwake (stirs_get h) i = ground arith
  Step-IsAwake (stirs_set h) i = ground arith

  -- From a new exchange, in every order of the steps of one getting and one setting thread: at most
  -- one holds the mutex, which is locked exactly while one does, each finds the flag as it waited
  -- for it, and none sleeps through a change that it waits for: the flag is against it, or the
  -- other thread is at its notification.
  pub Reach-IsAwake : (x : T) {m : Monitor T} → Reach (new x) m → IsAwake m
  Reach-IsAwake x here = ground arith
  Reach-IsAwake x (next r s) = Step-IsAwake s (Reach-IsAwake x r)

  -- A thread has a step of its own.
  abbrev pub Goes : Monitor T → Type 0
  Goes m = (n : Monitor T) × Act m n

  setter-Goes : (s : Spot) (m : Monitor T) → m.setter ≡ s → inside s ≡ true → Goes m
  setter-Goes testing m e h = (set_test m, tests_set e)
  setter-Goes moving m e h = (set_move m m.storage, moves_in m.storage e)
  setter-Goes notifying m e h = (set_notify m, notifies_get e)
  setter-Goes away m e h = cc
  setter-Goes locking m e h = cc
  setter-Goes asleep m e h = cc
  setter-Goes entering m e h = cc

  -- The getter sleeps, and the mutex is free.
  sleeping-Goes :
      (s : Spot) (m : Monitor T)
      → m.setter ≡ s
      → inside s ≡ false
      → m.locked ≡ false
      → m.getter ≡ asleep
      → IsAwake m
      → Goes m
  sleeping-Goes away m e h free sleeps i = (set_look m, looks_set e)
  sleeping-Goes locking m e h free sleeps i = (set_lock m, locks_set e free)
  sleeping-Goes entering m e h free sleeps i = (set_enter m, enters_set e free)
  sleeping-Goes asleep m e h free sleeps i =
      absurd (ground (arith, i.getter_sleeps sleeps, i.setter_sleeps e))
  sleeping-Goes testing m e h free sleeps i = cc
  sleeping-Goes moving m e h free sleeps i = cc
  sleeping-Goes notifying m e h free sleeps i = cc

  getter-Goes :
      (g : Spot) (m : Monitor T) → m.getter ≡ g → inside m.setter ≡ false → IsAwake m → Goes m
  getter-Goes away m e h i = (get_look m, looks_get e)
  getter-Goes locking m e h i = (get_lock m, locks_get e (ground arith))
  getter-Goes testing m e h i = (get_test m, tests_get e)
  getter-Goes asleep m e h i = sleeping-Goes m.setter m refl h (ground arith) e i
  getter-Goes entering m e h i = (get_enter m, enters_get e (ground arith))
  getter-Goes moving m e h i = (get_move m m.storage, moves_out m.storage e)
  getter-Goes notifying m e h i = (get_notify m, notifies_set e)

  -- From a new exchange no order of steps comes to a state in which both threads are blocked: one
  -- has a step of its own, which is no wake-up without a notification.
  pub Reach-Goes : (x : T) {m : Monitor T} → Reach (new x) m → Goes m
  Reach-Goes x {m} r =
      let i = Reach-IsAwake x r in
      elim (Bool-cases (inside m.setter)) [
        | inl held ↦ setter-Goes m.setter m refl held
        | inr free ↦ getter-Goes m.getter m refl free i
      ]
