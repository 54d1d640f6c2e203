-- ===== src/Exchange/Monitor/Tests.antt =====
-- A getter that goes to sleep and is woken by the setter's notification.
use bpf_program.Base.{ℕ, ◌≡◌, refl, [], ◌∷◌}
use bpf_program.Exchange.Monitor.{
  Monitor, asleep, locking, new, get_look, get_lock, get_test, get_enter, get_move, set_look,
  set_enter, set_move, set_notify, looks_get, locks_get, tests_get, looks_set, enters_set, moves_in,
  notifies_get, acts, Reach, here, next,
}
use bpf_program.Exchange.Blocking as Blocking
use bpf_program.Exchange.Monitor.Refine.{view}
use bpf_program.Exchange.Monitor.Frees.{Gets}
use bpf_program.Exchange.Monitor.Matches.{Reach-Gets}
use bpf_program.Exchange.Monitor.Awake.{IsAwake, Reach-IsAwake, Goes, Reach-Goes}

abbrev slept : Monitor ℕ
slept = get_test (get_lock (get_look (new 0)))

abbrev woken : Monitor ℕ
woken = set_notify (set_move (set_enter (set_look slept)) 7)

slept_run : slept.getter ≡ asleep
unfolding get_look get_lock get_test
slept_run = refl

woken_run : woken.getter ≡ locking
unfolding get_look get_lock get_test set_look set_enter set_move set_notify
woken_run = refl

received_run : (get_move (get_enter (get_test (get_lock woken))) 0).received ≡ 7 ∷ []
unfolding get_look get_lock get_test get_enter get_move set_look set_enter set_move set_notify
received_run = refl

slept-Reach : Reach (new 0) slept
unfolding get_look get_lock
slept-Reach =
    next (next (next here (acts (looks_get refl))) (acts (locks_get refl refl)))
      (acts (tests_get refl))

woken-Reach : Reach (new 0) woken
unfolding get_look get_lock get_test set_look set_enter set_move
woken-Reach =
    next
      (next (next (next slept-Reach (acts (looks_set refl))) (acts (enters_set refl refl)))
        (acts (moves_in 7 refl)))
      (acts (notifies_get refl))

Reach-IsAwake_example : IsAwake woken
Reach-IsAwake_example = Reach-IsAwake 0 woken-Reach

Reach-Goes_example : Goes slept
Reach-Goes_example = Reach-Goes 0 slept-Reach

Reach-Gets_example :
    Blocking.Reach (Blocking.fresh 0) (view woken)
    × ((b : Blocking.Blocking ℕ) → Blocking.Step (view woken) b → Gets woken b)
Reach-Gets_example = Reach-Gets 0 woken-Reach
