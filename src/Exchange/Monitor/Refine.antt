-- ===== src/Exchange/Monitor/Refine.antt =====
-- The exchange with its mutex and condition variable does what the one of Exchange/Blocking does,
-- whose steps are whole blocks.
use mathlib.Core.Path.{subst}
use bpf_program.Base.{Bool, true, false, not, ◌≡◌, ◌⊎◌, inl, inr, Bool-cases, refl, sym, ap, arith}
use bpf_program.Exchange.Blocking.{
  Blocking, Place, outside, waiting, passed, look_get, look_set, call_get, call_set, wake_get,
  wake_set, move_out, move_in, fresh,
}
use bpf_program.Exchange.Blocking as Blocking
use bpf_program.Exchange.Monitor.{
  Spot, away, locking, testing, asleep, entering, moving, notifying, Monitor, look, retry, new,
  get_look, get_lock, get_test, get_enter, get_move, get_notify, set_look, set_lock, set_test,
  set_enter, set_move, set_notify, Act, looks_get, locks_get, tests_get, enters_get, moves_out,
  notifies_set, looks_set, locks_set, tests_set, enters_set, moves_in, notifies_get, Step, acts,
  stirs_get, stirs_set, Reach, here, next,
}

-- What is seen of a thread's place: at its notification it has done what it came for.
abbrev pub place : Spot → Place
place away = outside
place notifying = outside
place entering = passed
place moving = passed
place locking = waiting
place testing = waiting
place asleep = waiting

pub place-look_get : (f : Bool) → place (look f) ≡ look_get f
place-look_get true = refl
place-look_get false = refl

pub place-look_set : (f : Bool) → place (look (not f)) ≡ look_set f
place-look_set true = refl
place-look_set false = refl

module _ {T : Type 0} where
  -- The exchange as Exchange/Blocking sees it.
  abbrev pub view : Monitor T → Blocking T
  view m = record {
    storage = m.storage;
    is_filled = m.is_filled;
    reader = place m.getter;
    writer = place m.setter;
    sent = m.sent;
    received = m.received;
  }

  abbrev Shows : Monitor T → Monitor T → Type 0
  Shows m n = (view n ≡ view m) ⊎ Blocking.Step (view m) (view n)

  Act-Shows : {m n : Monitor T} → Act m n → Shows m n
  unfolding get_look get_lock get_test get_enter get_move get_notify set_look set_lock set_test
      set_enter set_move set_notify call_get call_set wake_get wake_set move_out move_in
  Act-Shows {m} (looks_get h) =
      rw (place-look_get m.is_filled) (inr (Blocking.calls_get (ap place h)))
  Act-Shows {m} (locks_get h e) = inl (ground arith)
  Act-Shows {m} (tests_get h) = elim (Bool-cases m.is_filled) [
    | inl full ↦ rw (ap (λ b. place (retry b)) full) (inr (Blocking.wakes_get (ap place h) full))
    | inr empty ↦ rw (ap (λ b. place (retry b)) empty) (inl (ground arith))
  ]
  Act-Shows {m} (enters_get h e) = inl (ground arith)
  Act-Shows {m} (moves_out left h) = inr (Blocking.moves_out left (ap place h))
  Act-Shows {m} (notifies_set h) = inl (ground arith)
  Act-Shows {m} (looks_set h) =
      rw (place-look_set m.is_filled) (inr (Blocking.calls_set (ap place h)))
  Act-Shows {m} (locks_set h e) = inl (ground arith)
  Act-Shows {m} (tests_set h) = elim (Bool-cases m.is_filled) [
    | inl full ↦ rw (ap (λ b. place (retry (not b))) full) (inl (ground arith))
    | inr empty ↦
        rw (ap (λ b. place (retry (not b))) empty) (inr (Blocking.wakes_set (ap place h) empty))
  ]
  Act-Shows {m} (enters_set h e) = inl (ground arith)
  Act-Shows {m} (moves_in value h) = inr (Blocking.moves_in value (ap place h))
  Act-Shows {m} (notifies_get h) = inl (ground arith)

  Step-Shows : {m n : Monitor T} → Step m n → Shows m n
  Step-Shows (acts a) = Act-Shows a
  Step-Shows (stirs_get h) = inl (ground arith)
  Step-Shows (stirs_set h) = inl (ground arith)

  next_seen :
      {b c : Blocking T} (x : T)
      → (c ≡ b) ⊎ Blocking.Step b c
      → Blocking.Reach (fresh x) b
      → Blocking.Reach (fresh x) c
  next_seen x (inl same) r = subst (Blocking.Reach (fresh x)) (sym same) r
  next_seen x (inr step) r = Blocking.next r step

  -- Whatever the threads do with the mutex and the condition variable, what is seen of it is
  -- reached in the exchange whose steps are whole blocks under the mutex.
  pub Reach-view : (x : T) {m : Monitor T} → Reach (new x) m → Blocking.Reach (fresh x) (view m)
  Reach-view x here = Blocking.here
  Reach-view x (next r s) = next_seen x (Step-Shows s) (Reach-view x r)
