-- ===== src/Exchange/Refused.antt =====
-- What `set` of `utils::ValueExchange` comes to when two values are set with no `get` in between.
use bpf_program.Base.{Bool, true, false, Option, none, some, ◌≡◌, refl, ◌∙◌, List, [], ◌∷◌, All}
use bpf_program.Exchange.{ValueExchange, emplace, publish, fetch, set, inspect, get}
use bpf_program.Exchange.Apart.{
  IsApart, ours, shared, theirs, emplace-contents, clear-contents, emplace-IsApart, clear-IsApart,
  publish-IsApart, fetch-IsApart,
}

-- A call of one of the two methods.
pub data Call (T : Type 0) : Type 0 where
  sets : T → Call T
  gets : Call T

module _ {T : Type 0} where
  -- The results of the calls of `set`, in order.
  unfoldable pub accepted : ValueExchange T → List (Call T) → List Bool
  accepted e [] = []
  accepted e (sets x ∷ calls) = (set e x).0 ∷ accepted (set e x).1 calls
  accepted e (gets ∷ calls) = accepted (get e).1 calls

  abbrev IsFull : ValueExchange T → T → Type 0
  IsFull e lost = IsApart e × (ours e ≡ some lost)

  set-full : (e : ValueExchange T) (lost x : T) → ours e ≡ some lost → set e x ≡ (false, e)
  unfolding set
  set-full e lost x h = rw (h, set) refl

  inspect-IsFull :
      (e : ValueExchange T) (lost : T) (o : Option T)
      → theirs e ≡ o
      → IsFull e lost
      → IsFull (inspect e).1 lost
  inspect-IsFull e lost none h full = rw (h, inspect) full
  inspect-IsFull e lost (some x) h full =
      rw (h, inspect) (clear-IsApart e full.0, (clear-contents e full.0).0 ∙ full.1)

  get-IsFull : (e : ValueExchange T) (lost : T) → IsFull e lost → IsFull (get e).1 lost
  unfolding get fetch
  get-IsFull e lost full =
      inspect-IsFull (fetch e) lost (theirs (fetch e)) refl (fetch-IsApart e full.0, full.1)

  accepted-full :
      (e : ValueExchange T) (lost : T) (calls : List (Call T))
      → IsFull e lost
      → All (λ result. result ≡ false) (accepted e calls)
  unfolding accepted
  accepted-full e lost [] full = tt
  accepted-full e lost (sets x ∷ calls) full =
      rw (set-full e lost x full.1) (refl, accepted-full e lost calls full)
  accepted-full e lost (gets ∷ calls) full =
      accepted-full (get e).1 lost calls (get-IsFull e lost full)

  -- Two values in a row, with nothing left over from before.
  abbrev both : ValueExchange T → T → T → ValueExchange T
  both e x y = publish (emplace (publish (emplace e x)) y)

  set-empty :
      (e : ValueExchange T) (x : T) → ours e ≡ none → set e x ≡ (true, publish (emplace e x))
  unfolding set
  set-empty e x h = rw (h, set) refl

  both-IsFull : (e : ValueExchange T) (x y : T) → IsApart e → IsFull (both e x y) x
  unfolding publish
  both-IsFull e x y apart =
      let one = publish-IsApart (emplace e x) (emplace-IsApart e x apart) in
      (
        publish-IsApart (emplace (publish (emplace e x)) y)
            (emplace-IsApart (publish (emplace e x)) y one),
        (emplace-contents (publish (emplace e x)) y one).1 ∙ (emplace-contents e x apart).0,
      )

  -- In an exchange whose pointers are apart and whose setter's and shared slots are empty, two
  -- calls of `set` with no `get` between them are both accepted, and every later call of `set` is
  -- refused, whatever calls of `get` and `set` come between.
  pub accepted-Refused :
      (e : ValueExchange T) (x y : T) (calls : List (Call T))
      → IsApart e
      → ours e ≡ none
      → shared e ≡ none
      → (later : List Bool) × (accepted e (sets x ∷ sets y ∷ calls) ≡ true ∷ true ∷ later)
        × All (λ result. result ≡ false) later
  unfolding accepted publish
  accepted-Refused e x y calls apart free quiet =
      let second_free : ours (publish (emplace e x)) ≡ none =
        (emplace-contents e x apart).1 ∙ quiet in
      (
        accepted (both e x y) calls,
        rw (set-empty e x free, set-empty (publish (emplace e x)) y second_free) refl,
        accepted-full (both e x y) x calls (both-IsFull e x y apart),
      )
