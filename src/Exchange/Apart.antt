-- ===== src/Exchange/Apart.antt =====
-- The three pointers of `utils::ValueExchange`, and what each statement does to the contents of
-- the slots they point to.
use bpf_program.Base.{true, false, Option, none, some, ◌≡◌, refl}
use bpf_program.Exchange.{
  Slot, first, second, third, same, write, ValueExchange, emplace, publish, fetch, clear,
}

module _ {T : Type 0} where
  -- No two of the pointers are equal, so that the two sides never touch one slot at a time.
  pub record IsApart (e : ValueExchange T) : Type 0 where
    pub ours_shared : same e.set_buffer e.buffer ≡ false
    pub ours_theirs : same e.set_buffer e.get_buffer ≡ false
    pub shared_theirs : same e.buffer e.get_buffer ≡ false

  -- What the setter, the shared and the getter's pointer lead to.
  abbrev pub ours : ValueExchange T → Option T
  ours e = e.storage e.set_buffer

  abbrev pub shared : ValueExchange T → Option T
  shared e = e.storage e.buffer

  abbrev pub theirs : ValueExchange T → Option T
  theirs e = e.storage e.get_buffer

pub same-sym : (a b : Slot) → same a b ≡ same b a
same-sym first first = refl
same-sym first second = refl
same-sym first third = refl
same-sym second first = refl
same-sym second second = refl
same-sym second third = refl
same-sym third first = refl
same-sym third second = refl
same-sym third third = refl

pub same_self : (a : Slot) → same a a ≡ true
same_self first = refl
same_self second = refl
same_self third = refl

module _ {T : Type 0} where
  pub write-at : (storage : Slot → Option T) (a : Slot) (x : Option T) → write storage a x a ≡ x
  write-at storage a x = rw (same_self a) refl

  pub write-other :
      (storage : Slot → Option T) (a b : Slot) (x : Option T)
      → same b a ≡ false
      → write storage a x b ≡ storage b
  write-other storage a b x h = rw h refl

  pub emplace-contents :
      (e : ValueExchange T) (x : T)
      → IsApart e
      → (ours (emplace e x) ≡ some x)
        × (shared (emplace e x) ≡ shared e)
        × (theirs (emplace e x) ≡ theirs e)
  unfolding emplace
  emplace-contents e x apart = (
    write-at e.storage e.set_buffer (some x),
    write-other e.storage e.set_buffer e.buffer (some x)
        (rw (same-sym e.buffer e.set_buffer) apart.ours_shared),
    write-other e.storage e.set_buffer e.get_buffer (some x)
        (rw (same-sym e.get_buffer e.set_buffer) apart.ours_theirs),
  )

  pub clear-contents :
      (e : ValueExchange T)
      → IsApart e
      → (ours (clear e) ≡ ours e) × (shared (clear e) ≡ shared e) × (theirs (clear e) ≡ none)
  unfolding clear
  clear-contents e apart = (
    write-other e.storage e.get_buffer e.set_buffer none apart.ours_theirs,
    write-other e.storage e.get_buffer e.buffer none apart.shared_theirs,
    write-at e.storage e.get_buffer none,
  )

  pub emplace-IsApart : (e : ValueExchange T) (x : T) → IsApart e → IsApart (emplace e x)
  unfolding emplace
  emplace-IsApart e x apart = record {
    ours_shared = apart.ours_shared;
    ours_theirs = apart.ours_theirs;
    shared_theirs = apart.shared_theirs;
  }

  pub clear-IsApart : (e : ValueExchange T) → IsApart e → IsApart (clear e)
  unfolding clear
  clear-IsApart e apart = record {
    ours_shared = apart.ours_shared;
    ours_theirs = apart.ours_theirs;
    shared_theirs = apart.shared_theirs;
  }

  pub publish-IsApart : (e : ValueExchange T) → IsApart e → IsApart (publish e)
  unfolding publish
  publish-IsApart e apart = record {
    ours_shared = rw (same-sym e.buffer e.set_buffer) apart.ours_shared;
    ours_theirs = apart.shared_theirs;
    shared_theirs = apart.ours_theirs;
  }

  pub fetch-IsApart : (e : ValueExchange T) → IsApart e → IsApart (fetch e)
  unfolding fetch
  fetch-IsApart e apart = record {
    ours_shared = apart.ours_theirs;
    ours_theirs = apart.ours_shared;
    shared_theirs = rw (same-sym e.get_buffer e.buffer) apart.shared_theirs;
  }
