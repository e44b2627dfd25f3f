-- ===== src/Queues/Fetching/Spacing.antt =====
-- The pod is asked by one request at a time, and not again while the entry is fresh.
use shopware_operator.Prelude.{
  ℕ, ◌+◌, ◌≤◌, ◌≡◌, refl, sym, ap, ◌∙◌, ◌⊎◌, Bool, true, false, Option, none, some, List, [], ◌∷◌,
  eqb, inl, inr, Bool-cases, arith, eq_of_some-eq,
}
use shopware_operator.Api.Store.{QueueTransportStats}
use shopware_operator.Queues.Handler.{CacheEntry, is_fresh}
use shopware_operator.Queues.Fetching.{
  Position, waiting, holding, fetching, answered, Slot, at, entry_of, Step, tick, hit, miss,
  acquire, hit_again, ask, fetch, fail, Reach, here, next, new_slot,
}

-- Two answers of the pod that are kept are at least the time to live apart.
abbrev pub Spaced : ℕ → List ℕ → Type 0
Spaced ttl [] = Unit
Spaced ttl (f ∷ []) = Unit
Spaced ttl (f ∷ g ∷ fs) = (g + ttl ≤ f) × Spaced ttl (g ∷ fs)

-- Whether a thread has the lock
abbrev is_inside : Position → Bool
is_inside holding = true
is_inside fetching = true
is_inside _ = false

-- The entry is what the pod has said last, and that is not in the future.
abbrev Newest : ℕ → Option CacheEntry → List ℕ → Type 0
Newest now none [] = Unit
Newest now (some e) (f ∷ fs) = (e.fetched_at ≡ f) × (f ≤ now)
Newest now none (f ∷ fs) = Bool.true ≡ Bool.false
Newest now (some e) [] = Bool.true ≡ Bool.false

record Inv (ttl : ℕ) (s : Slot) : Type 0 where
  owner : (t : ℕ) → is_inside (s.threads t) ≡ true → s.lock ≡ some t
  newest : Newest s.now s.entry s.fetches
  stale : (t : ℕ) → s.threads t ≡ fetching → is_fresh ttl s.now s.entry ≡ false
  spaced : Spaced ttl s.fetches

Newest-tick :
    (now n : ℕ) (e : Option CacheEntry) (fs : List ℕ) → Newest now e fs → Newest (now + n) e fs
Newest-tick now n none [] h = tt
Newest-tick now n none (f ∷ fs) h = h
Newest-tick now n (some e) [] h = h
Newest-tick now n (some e) (f ∷ fs) h = (h.0, omega arith)

stale_later :
    (ttl now n : ℕ) (e : Option CacheEntry)
    → is_fresh ttl now e ≡ false
    → is_fresh ttl (now + n) e ≡ false
stale_later ttl now n none h = refl
stale_later ttl now n (some e) h = ground arith

Spaced-fetch :
    (ttl now : ℕ) (e : Option CacheEntry) (fs : List ℕ)
    → Newest now e fs
    → is_fresh ttl now e ≡ false
    → Spaced ttl fs
    → Spaced ttl (now ∷ fs)
Spaced-fetch ttl now none [] w stale s = tt
Spaced-fetch ttl now none (f ∷ fs) w stale s = absurd (cc w)
Spaced-fetch ttl now (some e) [] w stale s = absurd (cc w)
Spaced-fetch ttl now (some e) (f ∷ fs) w stale s = (ground arith, s)

inside_fetching : (p : Position) → is_inside p ≡ false → ¬ (p ≡ fetching)
inside_fetching p out e = cc (rw e at out)

at_cases :
    (t j : ℕ) (p : Position) (threads : ℕ → Position)
    → ((t ≡ j) × (at t p threads j ≡ p)) ⊎ (at t p threads j ≡ threads j)
at_cases t j p threads = elim (Bool-cases (eqb t j)) [
  | inl same ↦ inl (ground arith, rw same refl)
  | inr other ↦ inr (rw other refl)
]

module _ (ttl : ℕ) (fallback : List QueueTransportStats) where
  alone :
      (s : Slot)
      → Inv ttl s
      → (t j : ℕ) → is_inside (s.threads t) ≡ true
      → is_inside (s.threads j) ≡ true
      → t ≡ j
  alone s inv t j h k = eq_of_some-eq (sym (inv.owner t h) ∙ inv.owner j k)

  -- A thread that has not got the lock moves and does not get it.
  outside :
      (s : Slot) (t : ℕ) (p : Position)
      → Inv ttl s
      → is_inside p ≡ false
      → Inv ttl (record s { threads = at t p s.threads })
  outside s t p inv out = record {
    owner = λ j i. elim (at_cases t j p s.threads) [
      | inl (same, e) ↦ absurd (cc (rw e at i, out))
      | inr e ↦ inv.owner j (rw (← e) i)
    ];
    newest = inv.newest;
    stale = λ j i. elim (at_cases t j p s.threads) [
      | inl (same, e) ↦ absurd (inside_fetching p out (sym e ∙ i))
      | inr e ↦ inv.stale j (sym e ∙ i)
    ];
    spaced = inv.spaced;
  }

  -- The thread with the lock gives it back, with what it leaves in the slot.
  leave :
      (s : Slot) (t : ℕ) (entry : Option CacheEntry) (fetches : List ℕ) (p : Position)
      → Inv ttl s
      → is_inside (s.threads t) ≡ true
      → is_inside p ≡ false
      → Newest s.now entry fetches
      → Spaced ttl fetches
      → Inv ttl
          (record s { threads = at t p s.threads; lock = none; entry = entry; fetches = fetches })
  leave s t entry fetches p inv inside out newest spaced = record {
    owner = λ j i. absurd (gone j i);
    newest = newest;
    stale = λ j i. absurd (gone j (rw i refl));
    spaced = spaced;
  }
    where
      gone : (j : ℕ) → ¬ (is_inside (at t p s.threads j) ≡ true)
      gone j i = elim (Bool-cases (eqb t j)) [
        | inl same ↦ cc (rw same at i, out)
        | inr other ↦
            let there : is_inside (s.threads j) ≡ true = rw other at i in
            let same : t ≡ j = alone s inv t j inside there in ground arith
      ]

  Step-Inv : {s u : Slot} → Step ttl fallback s u → Inv ttl s → Inv ttl u
  Step-Inv (tick s n) inv = record {
    owner = inv.owner;
    newest = Newest-tick s.now n s.entry s.fetches inv.newest;
    stale = λ t h. stale_later ttl s.now n s.entry (inv.stale t h);
    spaced = inv.spaced;
  }
  Step-Inv (hit s t e h k f) inv = outside s t (answered e.transports) inv refl
  Step-Inv (miss s t h f) inv = outside s t waiting inv refl
  Step-Inv (acquire s t h free) inv = record {
    owner = λ j i. elim (at_cases t j holding s.threads) [
      | inl (same, e) ↦ ap some same
      | inr e ↦ absurd (cc (inv.owner j (rw (← e) i), free))
    ];
    newest = inv.newest;
    stale = λ j i. elim (at_cases t j holding s.threads) [
      | inl (same, e) ↦ absurd (cc (e, i))
      | inr e ↦ inv.stale j (sym e ∙ i)
    ];
    spaced = inv.spaced;
  }
  Step-Inv (hit_again s t e h k f) inv =
      leave s t s.entry s.fetches (answered e.transports) inv (rw h refl) refl inv.newest inv.spaced
  Step-Inv (ask s t h f) inv = record {
    owner = λ j i. elim (at_cases t j fetching s.threads) [
      | inl (same, e) ↦ inv.owner t (rw h refl) ∙ ap some same
      | inr e ↦ inv.owner j (rw (← e) i)
    ];
    newest = inv.newest;
    stale = λ j i. f;
    spaced = inv.spaced;
  }
  Step-Inv (fetch s t ts h) inv =
      leave s t (some (entry_of s.now ts)) (s.now ∷ s.fetches) (answered ts) inv (rw h refl) refl
        (refl, omega arith)
        (Spaced-fetch ttl s.now s.entry s.fetches inv.newest (inv.stale t h) inv.spaced)
  Step-Inv (fail s t h) inv =
      leave s t s.entry s.fetches (answered fallback) inv (rw h refl) refl inv.newest inv.spaced

  Reach-Inv : {s u : Slot} → Reach ttl fallback s u → Inv ttl s → Inv ttl u
  Reach-Inv here inv = inv
  Reach-Inv (next r step) inv = Step-Inv step (Reach-Inv r inv)

  Inv-new_slot : (now : ℕ) → Inv ttl (new_slot now)
  Inv-new_slot now = record { owner = λ t h. cc h; newest = tt; stale = λ t h. refl; spaced = tt }

  -- However the steps of the requests for a store come one after the other, two answers of the pod that
  -- are kept are at least the time to live apart; and never do two requests ask the pod at once.
  pub Reach-Spaced :
      (start : ℕ) {s : Slot}
      → Reach ttl fallback (new_slot start) s
      → Spaced ttl s.fetches × ((t u : ℕ) → s.threads t ≡ fetching → s.threads u ≡ fetching → t ≡ u)
  Reach-Spaced start {s} r =
      let inv = Reach-Inv r (Inv-new_slot start) in
      (inv.spaced, λ t u h k. alone s inv t u (rw h refl) (rw k refl))
