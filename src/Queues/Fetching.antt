-- ===== src/Queues/Fetching.antt =====
-- internal/metrics/queue_handler.go, transports: the cache of one store under several requests at once, whose
-- steps come in any order. A thread first looks at the entry, then takes the lock, looks again, and only
-- then asks the pod.
pub mod Spacing
use shopware_operator.Prelude.{
  ℕ, suc, ◌+◌, ◌-◌, ◌≤◌, ◌<◌, String, ◌≡◌, refl, sym, ap, ◌∙◌, ◌⊎◌, Bool, true, false, Option, none,
  some, List, [], ◌∷◌, if◌then◌else◌, ltb, eqb, inl, inr, Bool-cases, arith, eq_of_some-eq,
}
use shopware_operator.Api.Store.{QueueTransportStats}
use shopware_operator.Queues.Handler.{CacheEntry, is_fresh}

-- Where a thread stands: before its first look, before the lock, before its second look, while the pod
-- is asked, and with an answer.
pub data Position : Type 0 where
  idle waiting holding fetching : Position
  answered : List QueueTransportStats → Position

-- queueCacheSlot with the time, the places of the threads and, newest first, the times at which the pod
-- has answered
pub record Slot : Type 0 where
  pub now : ℕ
  pub entry : Option CacheEntry
  pub lock : Option ℕ
  pub threads : ℕ → Position
  pub fetches : List ℕ

abbrev pub at : ℕ → Position → (ℕ → Position) → ℕ → Position
at t p threads j = if eqb t j then p else threads j

abbrev pub entry_of : ℕ → List QueueTransportStats → CacheEntry
entry_of now ts = record { fetched_at = now; transports = ts }

module _ (ttl : ℕ) (fallback : List QueueTransportStats) where
  -- The steps of transports, and the passing of time
  pub data Step : Slot → Slot → Type 0 where
    tick : (s : Slot) (n : ℕ) → Step s (record s { now = s.now + n })
    hit :
        (s : Slot) (t : ℕ) (e : CacheEntry)
        → s.threads t ≡ idle
        → s.entry ≡ some e
        → is_fresh ttl s.now (some e) ≡ true
        → Step s (record s { threads = at t (answered e.transports) s.threads })
    miss :
        (s : Slot) (t : ℕ)
        → s.threads t ≡ idle
        → is_fresh ttl s.now s.entry ≡ false
        → Step s (record s { threads = at t waiting s.threads })
    acquire :
        (s : Slot) (t : ℕ)
        → s.threads t ≡ waiting
        → s.lock ≡ none
        → Step s (record s { threads = at t holding s.threads; lock = some t })
    hit_again :
        (s : Slot) (t : ℕ) (e : CacheEntry)
        → s.threads t ≡ holding
        → s.entry ≡ some e
        → is_fresh ttl s.now (some e) ≡ true
        → Step s (record s { threads = at t (answered e.transports) s.threads; lock = none })
    ask :
        (s : Slot) (t : ℕ)
        → s.threads t ≡ holding
        → is_fresh ttl s.now s.entry ≡ false
        → Step s (record s { threads = at t fetching s.threads })
    fetch :
        (s : Slot) (t : ℕ) (ts : List QueueTransportStats)
        → s.threads t ≡ fetching
        → Step s (record s {
          threads = at t (answered ts) s.threads;
          lock = none;
          entry = some (entry_of s.now ts);
          fetches = s.now ∷ s.fetches;
        })
    fail :
        (s : Slot) (t : ℕ)
        → s.threads t ≡ fetching
        → Step s (record s { threads = at t (answered fallback) s.threads; lock = none })

  pub data Reach (s : Slot) : Slot → Type 0 where
    here : Reach s s
    next : {u v : Slot} → Reach s u → Step u v → Reach s v

-- A slot that no one has used.
abbrev pub new_slot : ℕ → Slot
new_slot now = record { now = now; entry = none; lock = none; threads = λ t. idle; fetches = [] }
