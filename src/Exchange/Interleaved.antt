-- ===== src/Exchange/Interleaved.antt =====
-- `set` and `get` of `utils::ValueExchange` on two threads, statement by statement: the atomic
-- exchanges and what stands between them.
use bpf_program.Base.{
  Bool, true, false, Option, none, some, ◌≡◌, refl, sym, ap, ◌∙◌, ◌⊎◌, inl, inr, List, [], ◌∷◌,
  ◌++◌,
}
use mathlib.Core.List.{append_assoc, append-nil}
use bpf_program.Exchange.{ValueExchange, new, emplace, publish, fetch, clear}
use bpf_program.Exchange.Apart.{
  IsApart, ours, shared, theirs, emplace-contents, clear-contents, emplace-IsApart, clear-IsApart,
  publish-IsApart, fetch-IsApart,
}

-- `setting` is the value that was emplaced and is not exchanged yet; `getting` says that the getter
-- has exchanged and not looked yet. `sent` and `received` are the values of the calls that
-- returned `true` so far.
pub record World (T : Type 0) : Type 0 where
  pub exchange : ValueExchange T
  pub setting : Option T
  pub getting : Bool
  pub sent : List T
  pub received : List T

module _ {T : Type 0} where
  abbrev pub start : World T
  start = record { exchange = new; setting = none; getting = false; sent = []; received = [] }

  unfoldable pub emplaced : World T → T → World T
  emplaced w x = record w { exchange = emplace w.exchange x; setting = some x }

  unfoldable pub published : World T → T → World T
  published w x = record w {
    exchange = publish w.exchange;
    setting = none;
    sent = w.sent ++ (x ∷ []);
  }

  unfoldable pub fetched : World T → World T
  fetched w = record w { exchange = fetch w.exchange; getting = true }

  unfoldable pub taken : World T → T → World T
  taken w x = record w {
    exchange = clear w.exchange;
    getting = false;
    received = w.received ++ (x ∷ []);
  }

  unfoldable pub missed : World T → World T
  missed w = record w { getting = false }

  pub data Step (w : World T) : World T → Type 0 where
    emplaces : (x : T) → w.setting ≡ none → ours w.exchange ≡ none → Step w (emplaced w x)
    refuses : (x y : T) → w.setting ≡ none → ours w.exchange ≡ some y → Step w w
    publishes : (x : T) → w.setting ≡ some x → Step w (published w x)
    fetches : w.getting ≡ false → Step w (fetched w)
    takes : (x : T) → w.getting ≡ true → theirs w.exchange ≡ some x → Step w (taken w x)
    misses : w.getting ≡ true → theirs w.exchange ≡ none → Step w (missed w)

  pub data Reach (w : World T) : World T → Type 0 where
    here : Reach w w
    next : {u v : World T} → Reach w u → Step u v → Reach w v

  abbrev pub held : Option T → List T
  held none = []
  held (some x) = x ∷ []

  -- What the getter has or can still come by.
  abbrev pub arrived : World T → List T
  arrived w = w.received ++ held (theirs w.exchange) ++ held (shared w.exchange)

  -- Every value sent is received or on its way, in order.
  pub record Flows (w : World T) : Type 0 where
    pub mine : ours w.exchange ≡ w.setting
    pub account : w.sent ≡ arrived w

  -- The last value but one is left in the setter's slot, where nobody looks.
  pub record Stuck (w : World T) : Type 0 where
    pub front : List T
    pub lost : T
    pub last : T
    pub idle : w.setting ≡ none
    pub mine : ours w.exchange ≡ some lost
    pub account : w.sent ≡ front ++ (lost ∷ last ∷ [])
    pub rest : arrived w ≡ front ++ (last ∷ [])

  pub record Accounts (w : World T) : Type 0 where
    pub apart : IsApart w.exchange
    pub idle : w.getting ≡ false → theirs w.exchange ≡ none
    pub phase : Flows w ⊎ Stuck w

  some-none : (o : Option T) {x : T} → o ≡ some x → o ≡ none → ⊥
  some-none none p q = cc
  some-none (some y) p q = cc

  arrived_ap :
      (r : List T) {a b c d : Option T}
      → a ≡ c
      → b ≡ d
      → r ++ held a ++ held b ≡ r ++ held c ++ held d
  arrived_ap r p q = rw (p, q) refl

  emplaced-Accounts :
      (w : World T) (x : T)
      → w.setting ≡ none
      → ours w.exchange ≡ none
      → Accounts w
      → Accounts (emplaced w x)
  unfolding emplaced
  emplaced-Accounts w x free empty i =
      let c = emplace-contents w.exchange x i.apart in
      record {
        apart = emplace-IsApart w.exchange x i.apart;
        idle = λ h. c.2 ∙ i.idle h;
        phase = elim i.phase [
          | inl f ↦ inl (record {
            mine = c.0;
            account = f.account ∙ arrived_ap w.received (sym c.2) (sym c.1);
          })
          | inr s ↦ absurd (some-none (ours w.exchange) s.mine empty)
        ];
      }

  published_lost :
      (f : List T) (g : Option T) (x v : T)
      → f ++ held g ++ (v ∷ []) ++ (x ∷ []) ≡ f ++ held g ++ (v ∷ x ∷ [])
  published_lost f g x v = append_assoc (f ++ held g) (v ∷ []) (x ∷ [])

  published-phase :
      (w : World T) (x : T) (b : Option T)
      → shared w.exchange ≡ b
      → w.setting ≡ some x
      → Flows w
      → Flows (published w x) ⊎ Stuck (published w x)
  unfolding published publish
  published-phase w x none e h f =
      let m = f.mine ∙ h in
      inl (record {
        mine = e;
        account =
            ap (λ l. l ++ (x ∷ [])) (f.account ∙ arrived_ap w.received refl e)
            ∙ ap (λ l. l ++ (x ∷ [])) (append-nil (w.received ++ held (theirs w.exchange)))
            ∙ arrived_ap w.received refl (sym m);
      })
  published-phase w x (some v) e h f = inr (record {
    front = w.received ++ held (theirs w.exchange);
    lost = v;
    last = x;
    idle = refl;
    mine = e;
    account =
        ap (λ l. l ++ (x ∷ [])) (f.account ∙ arrived_ap w.received refl e)
        ∙ published_lost w.received (theirs w.exchange) x v;
    rest = arrived_ap w.received refl (f.mine ∙ h);
  })

  published-Accounts :
      (w : World T) (x : T) → w.setting ≡ some x → Accounts w → Accounts (published w x)
  unfolding published publish
  published-Accounts w x h i = record {
    apart = publish-IsApart w.exchange i.apart;
    idle = i.idle;
    phase = elim i.phase [
      | inl f ↦ published-phase w x (shared w.exchange) refl h f
      | inr s ↦ absurd (some-none w.setting h s.idle)
    ];
  }

  -- The exchange of the getter moves nothing past anything, if its slot is empty.
  arrived-fetched : (w : World T) → theirs w.exchange ≡ none → arrived (fetched w) ≡ arrived w
  unfolding fetched fetch
  arrived-fetched w e =
      arrived_ap w.received refl e
      ∙ append-nil (w.received ++ held (shared w.exchange))
      ∙ ap (λ l. l ++ held (shared w.exchange)) (sym (append-nil w.received))
      ∙ arrived_ap w.received (sym e) refl

  fetched-Accounts : (w : World T) → w.getting ≡ false → Accounts w → Accounts (fetched w)
  unfolding fetched fetch
  fetched-Accounts w h i =
      let same_list = arrived-fetched w (i.idle h) in
      record {
        apart = fetch-IsApart w.exchange i.apart;
        idle = λ p. absurd (cc);
        phase = elim i.phase [
          | inl f ↦ inl (record { mine = f.mine; account = f.account ∙ sym same_list })
          | inr s ↦ inr (record {
            front = s.front;
            lost = s.lost;
            last = s.last;
            idle = s.idle;
            mine = s.mine;
            account = s.account;
            rest = same_list ∙ s.rest;
          })
        ];
      }

  arrived-taken :
      (w : World T) (x : T)
      → IsApart w.exchange
      → theirs w.exchange ≡ some x
      → arrived (taken w x) ≡ arrived w
  unfolding taken
  arrived-taken w x apart e =
      let c = clear-contents w.exchange apart in
      arrived_ap (w.received ++ (x ∷ [])) c.2 c.1
      ∙ ap (λ l. l ++ held (shared w.exchange)) (append-nil (w.received ++ (x ∷ [])))
      ∙ arrived_ap w.received (sym e) refl

  taken-Accounts :
      (w : World T) (x : T) → theirs w.exchange ≡ some x → Accounts w → Accounts (taken w x)
  unfolding taken
  taken-Accounts w x e i =
      let same_list = arrived-taken w x i.apart e in
      let c = clear-contents w.exchange i.apart in
      record {
        apart = clear-IsApart w.exchange i.apart;
        idle = λ _. c.2;
        phase = elim i.phase [
          | inl f ↦ inl (record { mine = c.0 ∙ f.mine; account = f.account ∙ sym same_list })
          | inr s ↦ inr (record {
            front = s.front;
            lost = s.lost;
            last = s.last;
            idle = s.idle;
            mine = c.0 ∙ s.mine;
            account = s.account;
            rest = same_list ∙ s.rest;
          })
        ];
      }

  missed-Accounts : (w : World T) → theirs w.exchange ≡ none → Accounts w → Accounts (missed w)
  unfolding missed
  missed-Accounts w e i = record {
    apart = i.apart;
    idle = λ _. e;
    phase = elim i.phase [
      | inl f ↦ inl (record { mine = f.mine; account = f.account })
      | inr s ↦ inr (record {
        front = s.front;
        lost = s.lost;
        last = s.last;
        idle = s.idle;
        mine = s.mine;
        account = s.account;
        rest = s.rest;
      })
    ];
  }

  Step-Accounts : {w u : World T} → Step w u → Accounts w → Accounts u
  Step-Accounts {w} (emplaces x free empty) i = emplaced-Accounts w x free empty i
  Step-Accounts (refuses x y free full) i = i
  Step-Accounts {w} (publishes x h) i = published-Accounts w x h i
  Step-Accounts {w} (fetches h) i = fetched-Accounts w h i
  Step-Accounts {w} (takes x h e) i = taken-Accounts w x e i
  Step-Accounts {w} (misses h e) i = missed-Accounts w e i

  start-Accounts : Accounts start
  start-Accounts = record {
    apart = record { ours_shared = refl; ours_theirs = refl; shared_theirs = refl };
    idle = λ _. refl;
    phase = inl (record { mine = refl; account = refl });
  }

  -- Whatever the order of the two threads' statements, the three pointers stay apart, a getter
  -- between two calls owns an empty slot, and either every value sent is received or on its way in
  -- the order sent, or exactly the last value sent but one is not and lies in the setter's slot.
  pub Reach-Accounts : {w : World T} → Reach start w → Accounts w
  Reach-Accounts here = start-Accounts
  Reach-Accounts (next r s) = Step-Accounts s (Reach-Accounts r)
