-- ===== src/Trigger/Pending.antt =====
-- What the recorder keeps for a key.
use shopware_operator.Prelude.{
  ℕ, ◌-◌, ◌≤◌, String, inl, inr, Bool, List, [], ◌∷◌, ◌++◌, arith, Bool-cases, length, ltb,
  length-drop,
}
use shopware_operator.Prelude.Int.{ℤ}
use shopware_operator.Trigger.{
  max_pending_per_key, NamespacedName, same_key, Trigger, Recorder, update, new_recorder, stamp,
  keep_newest, add, drain, forget, finish,
}

-- A call of one of the recorder's operations.
pub data Call : Type 0 where
  adds : ℕ → NamespacedName → Trigger → Call
  drains : ℕ → NamespacedName → Call
  forgets : NamespacedName → Call
  finishes : ℕ → NamespacedName → String → ℤ → Bool → Call

unfoldable pub after_call : (ℤ → String) → Recorder → Call → Recorder
unfolding add drain forget finish
after_call show_duration r (adds now key t) = add now key t r
after_call show_duration r (drains now key) = (drain show_duration now key r).1
after_call show_duration r (forgets key) = forget key r
after_call show_duration r (finishes now key reason after failed) =
    finish now key reason after failed r

unfoldable pub after_calls : (ℤ → String) → Recorder → List Call → Recorder
after_calls show_duration r [] = r
after_calls show_duration r (c ∷ cs) = after_calls show_duration (after_call show_duration r c) cs

abbrev IsBounded : Recorder → Type 0
IsBounded r = (k : NamespacedName) → length (r.pending k) ≤ max_pending_per_key

length-keep_newest : (ts : List Trigger) → length (keep_newest ts) ≤ max_pending_per_key
length-keep_newest ts = elim (Bool-cases (ltb max_pending_per_key (length ts))) [
  | inl long ↦ rw long (omega (arith, length-drop (length ts - max_pending_per_key) ts))
  | inr short ↦ rw short (ground arith)
]

update-IsBounded :
    (key k : NamespacedName) (ts : List Trigger) (m : NamespacedName → List Trigger)
    → length ts ≤ max_pending_per_key
    → length (m k) ≤ max_pending_per_key
    → length (update key ts m k) ≤ max_pending_per_key
update-IsBounded key k ts m h hk = elim (Bool-cases (same_key key k)) [
  | inl same ↦ rw same h
  | inr other ↦ rw other hk
]

after_call-IsBounded :
    (show_duration : ℤ → String) (r : Recorder) (c : Call)
    → IsBounded r
    → IsBounded (after_call show_duration r c)
unfolding after_call add drain forget finish
after_call-IsBounded show_duration r (adds now key t) b k =
    update-IsBounded key k _ r.pending (length-keep_newest (r.pending key ++ stamp now t ∷ []))
      (b k)
after_call-IsBounded show_duration r (drains now key) b k =
    update-IsBounded key k [] r.pending (omega arith) (b k)
after_call-IsBounded show_duration r (forgets key) b k =
    update-IsBounded key k [] r.pending (omega arith) (b k)
after_call-IsBounded show_duration r (finishes now key reason after failed) b k = b k

after_calls-IsBounded :
    (show_duration : ℤ → String) (r : Recorder) (cs : List Call)
    → IsBounded r
    → IsBounded (after_calls show_duration r cs)
unfolding after_calls
after_calls-IsBounded show_duration r [] b = b
after_calls-IsBounded show_duration r (c ∷ cs) b =
    after_calls-IsBounded show_duration (after_call show_duration r c) cs
      (after_call-IsBounded show_duration r c b)

-- However the operations are called, in any order and for any keys, no key ever has more than twenty
-- pending triggers.
pub pending_bounded :
    (show_duration : ℤ → String) (cs : List Call) (k : NamespacedName)
    → length ((after_calls show_duration new_recorder cs).pending k) ≤ max_pending_per_key
pending_bounded show_duration cs =
    after_calls-IsBounded show_duration new_recorder cs (λ k. omega arith)
