-- ===== src/Exchange/Blocking.antt =====
-- `utils::ValueExchangeBlocking` (include/iec_core/utils/value_exchange.h) between one thread that
-- calls `set` and one that calls `get`, as steps: the look at `isFilled`, the end of the wait and
-- the block under the mutex are one step each. `reset` ends the program's run and has no step.
use bpf_program.Base.{Bool, true, false, ◌≡◌, refl, sym, ap, ◌∙◌, List, [], ◌∷◌, ◌++◌}
use mathlib.Core.List.{append-nil}

-- Where a thread is in its call: outside of it, in `waiter.wait`, or in front of the block that
-- moves the value.
pub data Place : Type 0 where
  outside waiting passed : Place

-- The test in front of the wait.
abbrev pub look_get : Bool → Place
look_get false = waiting
look_get true = passed

abbrev pub look_set : Bool → Place
look_set true = waiting
look_set false = passed

pub record Blocking (T : Type 0) : Type 0 where
  pub storage : T
  pub is_filled : Bool
  pub reader : Place
  pub writer : Place
  pub sent : List T
  pub received : List T

pub passed-filled : (f : Bool) → look_get f ≡ passed → f ≡ true
passed-filled true h = refl
passed-filled false h = cc

passed-empty : (f : Bool) → look_set f ≡ passed → f ≡ false
passed-empty false h = refl
passed-empty true h = cc

module _ {T : Type 0} where
  abbrev pub fresh : T → Blocking T
  fresh x = record {
    storage = x;
    is_filled = false;
    reader = outside;
    writer = outside;
    sent = [];
    received = [];
  }

  -- `value = std::move(storage); isFilled = false`, where `left` is what the move leaves behind.
  unfoldable pub move_out : Blocking T → T → Blocking T
  move_out b left = record b {
    storage = left;
    is_filled = false;
    reader = outside;
    received = b.received ++ (b.storage ∷ []);
  }

  -- `storage = std::move(value); isFilled = true`
  unfoldable pub move_in : Blocking T → T → Blocking T
  move_in b value = record b {
    storage = value;
    is_filled = true;
    writer = outside;
    sent = b.sent ++ (value ∷ []);
  }

  unfoldable pub call_get : Blocking T → Blocking T
  call_get b = record b { reader = look_get b.is_filled }

  unfoldable pub call_set : Blocking T → Blocking T
  call_set b = record b { writer = look_set b.is_filled }

  unfoldable pub wake_get : Blocking T → Blocking T
  wake_get b = record b { reader = passed }

  unfoldable pub wake_set : Blocking T → Blocking T
  wake_set b = record b { writer = passed }

  pub data Step (b : Blocking T) : Blocking T → Type 0 where
    calls_get : b.reader ≡ outside → Step b (call_get b)
    wakes_get : b.reader ≡ waiting → b.is_filled ≡ true → Step b (wake_get b)
    moves_out : (left : T) → b.reader ≡ passed → Step b (move_out b left)
    calls_set : b.writer ≡ outside → Step b (call_set b)
    wakes_set : b.writer ≡ waiting → b.is_filled ≡ false → Step b (wake_set b)
    moves_in : (value : T) → b.writer ≡ passed → Step b (move_in b value)

  pub data Reach (b : Blocking T) : Blocking T → Type 0 where
    here : Reach b b
    next : {c d : Blocking T} → Reach b c → Step c d → Reach b d

  abbrev pub pending : Bool → T → List T
  pending true x = x ∷ []
  pending false x = []

  -- A thread that has passed its wait finds the flag as it was then, and every value sent is
  -- received or stored, once and in order.
  pub record Delivers (b : Blocking T) : Type 0 where
    pub readable : b.reader ≡ passed → b.is_filled ≡ true
    pub writable : b.writer ≡ passed → b.is_filled ≡ false
    pub account : b.sent ≡ b.received ++ pending b.is_filled b.storage

  move_out-Delivers :
      (b : Blocking T) (left : T) → b.reader ≡ passed → Delivers b → Delivers (move_out b left)
  unfolding move_out
  move_out-Delivers b left h i =
      let full = i.readable h in
      record {
        readable = λ p. absurd (cc);
        writable = λ _. refl;
        account =
            i.account
            ∙ ap (λ f. b.received ++ pending f b.storage) full
            ∙ sym (append-nil (b.received ++ (b.storage ∷ [])));
      }

  move_in-Delivers :
      (b : Blocking T) (value : T) → b.writer ≡ passed → Delivers b → Delivers (move_in b value)
  unfolding move_in
  move_in-Delivers b value h i =
      let empty = i.writable h in
      record {
        readable = λ _. refl;
        writable = λ p. absurd (cc);
        account =
            ap (λ l. l ++ (value ∷ []))
              (i.account
                ∙ ap (λ f. b.received ++ pending f b.storage) empty
                ∙ append-nil b.received);
      }

  pub Step-Delivers : {b c : Blocking T} → Step b c → Delivers b → Delivers c
  unfolding call_get call_set wake_get wake_set
  Step-Delivers {b} (calls_get h) i = record {
    readable = passed-filled b.is_filled;
    writable = i.writable;
    account = i.account;
  }
  Step-Delivers {b} (wakes_get h f) i = record {
    readable = λ _. f;
    writable = i.writable;
    account = i.account;
  }
  Step-Delivers {b} (moves_out left h) i = move_out-Delivers b left h i
  Step-Delivers {b} (calls_set h) i = record {
    readable = i.readable;
    writable = passed-empty b.is_filled;
    account = i.account;
  }
  Step-Delivers {b} (wakes_set h f) i = record {
    readable = i.readable;
    writable = λ _. f;
    account = i.account;
  }
  Step-Delivers {b} (moves_in value h) i = move_in-Delivers b value h i

  -- Between one thread that sets and one that gets, in every order of their steps, the values
  -- received, followed by the one that is stored, are the values sent; a value is moved out only
  -- while the flag is up and moved in only while it is down.
  pub Reach-Delivers : (x : T) {b : Blocking T} → Reach (fresh x) b → Delivers b
  Reach-Delivers x here = record {
    readable = λ p. absurd (cc);
    writable = λ p. absurd (cc);
    account = refl;
  }
  Reach-Delivers x (next r s) = Step-Delivers s (Reach-Delivers x r)
