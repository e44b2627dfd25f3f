-- ===== src/Trigger.antt =====
-- internal/trigger/recorder.go and internal/trigger/span.go: why a reconcile runs. A map of the
-- recorder is a function from keys. The recorder is not nil; on a nil one each operation returns at
-- once.
pub mod Pending
pub mod Causes
use shopware_operator.Prelude.{
  ℕ, ◌+◌, ◌-◌, String, Bool, true, false, not, ◌&&◌, Option, none, some, List, [], ◌∷◌, ◌++◌, ◌==◌,
  if◌then◌else◌, length, drop, ltb, eqb,
}
use shopware_operator.Prelude.Int.{ℤ, pos, is_pos}
use shopware_operator.Prelude.Text.{concat}

abbrev pub max_pending_per_key : ℕ
max_pending_per_key = 20

-- types.NamespacedName
pub record NamespacedName : Type 0 where
  pub namespace : String
  pub name : String

abbrev pub same_key : NamespacedName → NamespacedName → Bool
same_key k j = k.namespace == j.namespace && k.name == j.name

-- The time 0 is Go's zero time.
pub record Trigger : Type 0 where
  pub source : String
  pub event : String
  pub name : String
  pub reason : String
  pub changes : List String
  pub at : ℕ

-- scheduledRequeue
pub record ScheduledRequeue : Type 0 where
  pub reason : String
  pub after : ℤ
  pub at : ℕ

pub record Recorder : Type 0 where
  pub pending : NamespacedName → List Trigger
  pub requeues : NamespacedName → Option ScheduledRequeue
  pub seen : NamespacedName → Bool

-- `m[k] = v`, and `delete(m, k)` with the zero value
abbrev pub update {ℓ} :
    {V : Type ℓ} → NamespacedName → V → (NamespacedName → V) → NamespacedName → V
update k v m j = if same_key k j then v else m j

abbrev pub new_recorder : Recorder
new_recorder = record { pending = λ k. []; requeues = λ k. none; seen = λ k. false }

abbrev pub stamp : ℕ → Trigger → Trigger
stamp now t = if eqb t.at 0 then record t { at = now } else t

abbrev pub keep_newest : List Trigger → List Trigger
keep_newest ts =
    if ltb max_pending_per_key (length ts) then drop (length ts - max_pending_per_key) ts else ts

unfoldable pub add : ℕ → NamespacedName → Trigger → Recorder → Recorder
add now key t r = record r {
  pending = update key (keep_newest (r.pending key ++ stamp now t ∷ [])) r.pending;
}

-- `At.Add(d)`; a requeue is never before its time.
abbrev add_duration : ℕ → ℤ → ℕ
add_duration at (pos d) = at + d
add_duration at _ = at

-- The switch of Drain. `show_duration` is `time.Duration`'s String.
abbrev pub cause_without_event :
    (ℤ → String) → ℕ → NamespacedName → Option ScheduledRequeue → Bool → Trigger
cause_without_event show_duration now key (some q) seen = record {
  source = "Requeue";
  event = "requeue";
  name = key.name;
  reason = q.reason;
  changes = concat ("requeue_after:" ∷ show_duration q.after ∷ []) ∷ [];
  at = add_duration q.at q.after;
}
cause_without_event show_duration now key none false = record {
  source = "Controller";
  event = "startup";
  name = key.name;
  reason = "first reconcile since operator start";
  changes = [];
  at = now;
}
cause_without_event show_duration now key none true = record {
  source = "Controller";
  event = "resync";
  name = key.name;
  reason = "no watch event and no requeue scheduled, periodic cache resync";
  changes = [];
  at = now;
}

abbrev pub pending_or : Trigger → List Trigger → List Trigger
pending_or t [] = t ∷ []
pending_or t (p ∷ ps) = p ∷ ps

unfoldable pub drain : (ℤ → String) → ℕ → NamespacedName → Recorder → List Trigger × Recorder
drain show_duration now key r = (
  pending_or (cause_without_event show_duration now key (r.requeues key) (r.seen key))
      (r.pending key),
  record {
    pending = update key [] r.pending;
    requeues = update key none r.requeues;
    seen = update key true r.seen;
  },
)

unfoldable pub forget : NamespacedName → Recorder → Recorder
forget key r = record {
  pending = update key [] r.pending;
  requeues = update key none r.requeues;
  seen = update key false r.seen;
}

-- What Finish writes for the key; `failed` tells that the reconcile returned an error.
abbrev pub next_requeue : ℕ → String → ℤ → Bool → Option ScheduledRequeue
next_requeue now reason after true = some (record {
  reason = "previous reconcile returned an error, rate limited retry";
  after = pos 0;
  at = now;
})
next_requeue now reason after false =
    if is_pos after then some (record { reason = reason; after = after; at = now }) else none

unfoldable pub finish : ℕ → NamespacedName → String → ℤ → Bool → Recorder → Recorder
finish now key reason after failed r = record r {
  requeues = update key (next_requeue now reason after failed) r.requeues;
}

-- An event that the predicate of a watch was asked about: `subject` is the key that the watch finds
-- for the object and the object's name, if the object is not nil and has such a key.
abbrev record_event :
    ℕ
    → Bool
    → String
    → String
    → Option (NamespacedName × String)
    → Trigger
    → Recorder
    → Bool × Recorder
record_event now false source event subject t r = (false, r)
record_event now true source event none t r = (true, r)
record_event now true source event (some (key, name)) t r =
    (true, add now key (record t { source = source; event = event; name = name }) r)

-- Cause
unfoldable pub cause : List Trigger → String
cause [] = "unknown"
cause (t ∷ ts) =
    if t.event == "requeue"
    then "requeue"
    else if t.event == "resync"
    then "periodic resync"
    else if t.event == "startup"
    then "operator start"
    else "watch event"
