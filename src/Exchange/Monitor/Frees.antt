-- ===== src/Exchange/Monitor/Frees.antt =====
-- How a thread of `utils::ValueExchangeBlocking` (include/iec_core/utils/value_exchange.h) lets the
-- mutex go that the other one waits for.
use bpf_program.Base.{true, false, not, ◌≡◌, refl, ap, ◌∙◌, arith}
use bpf_program.Exchange.Blocking.{Blocking}
use bpf_program.Exchange.Monitor.{
  Spot, away, locking, testing, asleep, entering, moving, notifying, Monitor, retry, wake, get_test,
  get_notify, set_test, set_notify, Act, tests_get, notifies_set, tests_set, notifies_get,
}
use bpf_program.Exchange.Monitor.Awake.{inside, IsAwake}
use bpf_program.Exchange.Monitor.Refine.{place, view}

-- A notification is not seen of the thread that it wakes.
pub place-wake : (s : Spot) → place (wake s) ≡ place s
place-wake away = refl
place-wake locking = refl
place-wake testing = refl
place-wake asleep = refl
place-wake entering = refl
place-wake moving = refl
place-wake notifying = refl

module _ {T : Type 0} where
  -- Steps of the threads' own, with no wake-up without a notification.
  pub data Acts (m : Monitor T) : Monitor T → Type 0 where
    none_left : Acts m m
    then : {n o : Monitor T} → Acts m n → Act n o → Acts m o

  -- The threads can come to where `b` is seen.
  abbrev pub Gets : Monitor T → Blocking T → Type 0
  Gets m b = (n : Monitor T) × Acts m n × (view n ≡ b)

  -- The threads can come to where the mutex is free and nothing else is seen; a thread that slept
  -- is woken.
  pub record Frees (m : Monitor T) (at : Monitor T → Spot) : Type 0 where
    pub now : Monitor T
    pub path : Acts m now
    pub same : view now ≡ view m
    pub free : now.locked ≡ false
    pub spot : at now ≡ wake (at m)

  idle-Frees :
      (m : Monitor T) (at : Monitor T → Spot) → m.locked ≡ false → at m ≡ wake (at m) → Frees m at
  idle-Frees m at free spot = record {
    now = m;
    path = none_left;
    same = refl;
    free = free;
    spot = spot;
  }

  -- While the flag is up, the setter lets the mutex go without a change that is seen.
  pub setter-Frees :
      (s : Spot) (m : Monitor T)
      → m.setter ≡ s
      → m.is_filled ≡ true
      → inside m.getter ≡ false
      → IsAwake m
      → Frees m (λ n. n.getter)
  unfolding set_test set_notify
  setter-Frees testing m e full out i = record {
    now = set_test m;
    path = then none_left (tests_set e);
    same = rw (ap (λ b. place (retry (not b))) full) (ground arith);
    free = refl;
    spot = ground arith;
  }
  setter-Frees notifying m e full out i = record {
    now = set_notify m;
    path = then none_left (notifies_get e);
    same = ground arith;
    free = refl;
    spot = refl;
  }
  setter-Frees moving m e full out i = absurd (ground arith)
  setter-Frees away m e full out i = idle-Frees m (λ n. n.getter) (ground arith) (ground arith)
  setter-Frees locking m e full out i = idle-Frees m (λ n. n.getter) (ground arith) (ground arith)
  setter-Frees asleep m e full out i = idle-Frees m (λ n. n.getter) (ground arith) (ground arith)
  setter-Frees entering m e full out i = absurd (ground arith)

  -- While the flag is down, the getter lets the mutex go without a change that is seen.
  pub getter-Frees :
      (s : Spot) (m : Monitor T)
      → m.getter ≡ s
      → m.is_filled ≡ false
      → inside m.setter ≡ false
      → IsAwake m
      → Frees m (λ n. n.setter)
  unfolding get_test get_notify
  getter-Frees testing m e empty out i = record {
    now = get_test m;
    path = then none_left (tests_get e);
    same = rw (ap (λ b. place (retry b)) empty) (ground arith);
    free = refl;
    spot = ground arith;
  }
  getter-Frees notifying m e empty out i = record {
    now = get_notify m;
    path = then none_left (notifies_set e);
    same = ground arith;
    free = refl;
    spot = refl;
  }
  getter-Frees moving m e empty out i = absurd (ground arith)
  getter-Frees away m e empty out i = idle-Frees m (λ n. n.setter) (ground arith) (ground arith)
  getter-Frees locking m e empty out i = idle-Frees m (λ n. n.setter) (ground arith) (ground arith)
  getter-Frees asleep m e empty out i = idle-Frees m (λ n. n.setter) (ground arith) (ground arith)
  getter-Frees entering m e empty out i = absurd (ground arith)

  Acts-append : {m n o : Monitor T} → Acts m n → Acts n o → Acts m o
  Acts-append a none_left = a
  Acts-append a (then b s) = then (Acts-append a b) s

  -- What is done once the mutex is free.
  pub after_Frees :
      {m : Monitor T} {at : Monitor T → Spot} (f : Frees m at) (change : Blocking T → Blocking T)
      → Gets f.now (change (view f.now))
      → Gets m (change (view m))
  after_Frees f change (n, path, seen) = (n, Acts-append f.path path, seen ∙ ap change f.same)
