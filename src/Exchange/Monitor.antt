-- ===== src/Exchange/Monitor.antt =====
-- `utils::ValueExchangeBlocking` (include/iec_core/utils/value_exchange.h) between one thread that
-- calls `set` and one that calls `get`, with the mutex and the condition variable written out: a
-- step is one access to the flag, the mutex or the condition variable.
pub mod Awake
pub mod Refine
pub mod Frees
pub mod Matches
mod Tests
use bpf_program.Base.{Bool, true, false, not, ◌≡◌, List, [], ◌∷◌, ◌++◌, if◌then◌else◌}

-- Where a thread is in its call: outside of it; in front of the mutex, with the predicate of the
-- wait to be tested behind it; at this test; asleep in the wait; in front of the second mutex
-- block; at its move; at its `notify_one`.
pub data Spot : Type 0 where
  away locking testing asleep entering moving notifying : Spot

-- `locked` is the state of `accessor`.
pub record Monitor (T : Type 0) : Type 0 where
  pub storage : T
  pub is_filled : Bool
  pub locked : Bool
  pub getter : Spot
  pub setter : Spot
  pub sent : List T
  pub received : List T

-- The test in front of the first mutex block, which does not hold the mutex.
abbrev pub look : Bool → Spot
look true = entering
look false = locking

-- The test of the predicate in the wait: it ends the block, or the thread sleeps.
abbrev pub retry : Bool → Spot
retry true = entering
retry false = asleep

-- `notify_one` finds the other thread asleep, or nobody. It tests the predicate again.
abbrev pub wake : Spot → Spot
wake asleep = locking
wake other = other

module _ {T : Type 0} where
  abbrev pub new : T → Monitor T
  new x = record {
    storage = x;
    is_filled = false;
    locked = false;
    getter = away;
    setter = away;
    sent = [];
    received = [];
  }

  unfoldable pub get_look : Monitor T → Monitor T
  get_look m = record m { getter = look m.is_filled }

  unfoldable pub get_lock : Monitor T → Monitor T
  get_lock m = record m { getter = testing; locked = true }

  -- The sleep and the end of the block let the mutex go.
  unfoldable pub get_test : Monitor T → Monitor T
  get_test m = record m { getter = retry m.is_filled; locked = false }

  unfoldable pub get_enter : Monitor T → Monitor T
  get_enter m = record m { getter = moving; locked = true }

  -- `value = std::move(storage); isFilled = false`, where `left` is what the move leaves behind.
  unfoldable pub get_move : Monitor T → T → Monitor T
  get_move m left = record m {
    storage = left;
    is_filled = false;
    getter = notifying;
    received = m.received ++ (m.storage ∷ []);
  }

  unfoldable pub get_notify : Monitor T → Monitor T
  get_notify m = record m { getter = away; setter = wake m.setter; locked = false }

  unfoldable pub set_look : Monitor T → Monitor T
  set_look m = record m { setter = look (not m.is_filled) }

  unfoldable pub set_lock : Monitor T → Monitor T
  set_lock m = record m { setter = testing; locked = true }

  unfoldable pub set_test : Monitor T → Monitor T
  set_test m = record m { setter = retry (not m.is_filled); locked = false }

  unfoldable pub set_enter : Monitor T → Monitor T
  set_enter m = record m { setter = moving; locked = true }

  -- `storage = std::move(value); isFilled = true`
  unfoldable pub set_move : Monitor T → T → Monitor T
  set_move m value = record m {
    storage = value;
    is_filled = true;
    setter = notifying;
    sent = m.sent ++ (value ∷ []);
  }

  unfoldable pub set_notify : Monitor T → Monitor T
  set_notify m = record m { setter = away; getter = wake m.getter; locked = false }

  -- What the threads do of themselves.
  pub data Act (m : Monitor T) : Monitor T → Type 0 where
    looks_get : m.getter ≡ away → Act m (get_look m)
    locks_get : m.getter ≡ locking → m.locked ≡ false → Act m (get_lock m)
    tests_get : m.getter ≡ testing → Act m (get_test m)
    enters_get : m.getter ≡ entering → m.locked ≡ false → Act m (get_enter m)
    moves_out : (left : T) → m.getter ≡ moving → Act m (get_move m left)
    notifies_set : m.getter ≡ notifying → Act m (get_notify m)
    looks_set : m.setter ≡ away → Act m (set_look m)
    locks_set : m.setter ≡ locking → m.locked ≡ false → Act m (set_lock m)
    tests_set : m.setter ≡ testing → Act m (set_test m)
    enters_set : m.setter ≡ entering → m.locked ≡ false → Act m (set_enter m)
    moves_in : (value : T) → m.setter ≡ moving → Act m (set_move m value)
    notifies_get : m.setter ≡ notifying → Act m (set_notify m)

  -- A sleeping thread may also wake with no notification.
  pub data Step (m : Monitor T) : Monitor T → Type 0 where
    acts : {n : Monitor T} → Act m n → Step m n
    stirs_get : m.getter ≡ asleep → Step m (record m { getter = locking })
    stirs_set : m.setter ≡ asleep → Step m (record m { setter = locking })

  pub data Reach (m : Monitor T) : Monitor T → Type 0 where
    here : Reach m m
    next : {n o : Monitor T} → Reach m n → Step n o → Reach m o
