-- ===== src/Exchange/Tests.antt =====
-- Runs of the value exchanges, and the theorems at them.
use bpf_program.Base.{ℕ, Bool, true, false, some, ◌≡◌, refl, List, [], ◌∷◌, All}
use bpf_program.Exchange
use bpf_program.Exchange.Interleaved
use bpf_program.Exchange.Blocking
use bpf_program.Exchange.Apart.{IsApart}
use bpf_program.Exchange.Refused.{sets, gets, accepted, accepted-Refused}

abbrev one_set : Exchange.ValueExchange ℕ
one_set = (Exchange.set Exchange.new 7).1

set_get : (Exchange.get one_set).0 ≡ some 7
unfolding Exchange.set Exchange.get Exchange.emplace Exchange.publish Exchange.fetch
set_get = refl

-- A value is set while the getter is between its exchange and its look.
abbrev crossing : Interleaved.World ℕ
crossing = Interleaved.published (Interleaved.fetched (Interleaved.emplaced Interleaved.start 7)) 7

crossing_reached : Interleaved.Reach Interleaved.start crossing
unfolding Interleaved.emplaced Interleaved.fetched
crossing_reached =
    Interleaved.next
      (Interleaved.next (Interleaved.next Interleaved.here (Interleaved.emplaces 7 refl refl))
        (Interleaved.fetches refl))
      (Interleaved.publishes 7 refl)

Reach-Accounts_example : Interleaved.Accounts crossing
Reach-Accounts_example = Interleaved.Reach-Accounts crossing_reached

new-IsApart : IsApart {T = ℕ} Exchange.new
new-IsApart = record { ours_shared = refl; ours_theirs = refl; shared_theirs = refl }

accepted-Refused_example :
    (later : List Bool) × (accepted {T = ℕ} Exchange.new
        (sets 1 ∷ sets 2 ∷ gets ∷ sets 3 ∷ gets ∷ sets 4 ∷ [])
      ≡ true ∷ true ∷ later)
    × All (λ result. result ≡ false) later
accepted-Refused_example =
    accepted-Refused Exchange.new 1 2 (gets ∷ sets 3 ∷ gets ∷ sets 4 ∷ []) new-IsApart refl refl

abbrev delivered : Blocking.Blocking ℕ
delivered =
    Blocking.move_out
      (Blocking.wake_get
        (Blocking.move_in (Blocking.call_set (Blocking.call_get (Blocking.fresh 0))) 7))
      0

delivered_reached : Blocking.Reach (Blocking.fresh 0) delivered
unfolding Blocking.call_get Blocking.call_set Blocking.move_in Blocking.wake_get
delivered_reached =
    Blocking.next
      (Blocking.next
        (Blocking.next
          (Blocking.next (Blocking.next Blocking.here (Blocking.calls_get refl))
            (Blocking.calls_set refl))
          (Blocking.moves_in 7 refl))
        (Blocking.wakes_get refl refl))
      (Blocking.moves_out 0 refl)

Reach-Delivers_example : Blocking.Delivers delivered
Reach-Delivers_example = Blocking.Reach-Delivers 0 delivered_reached
