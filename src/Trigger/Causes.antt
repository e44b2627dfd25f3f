-- ===== src/Trigger/Causes.antt =====
-- What Drain tells the caller.
use shopware_operator.Prelude.{
  ℕ, String, ◌≡◌, refl, Bool, true, false, ◌||◌, Option, none, some, List, [], ◌∷◌, if◌then◌else◌,
  inl, inr, Bool-cases, eq_refl,
}
use shopware_operator.Prelude.Int.{ℤ, is_pos}
use shopware_operator.Trigger.{
  NamespacedName, same_key, ScheduledRequeue, Trigger, Recorder, drain, forget, finish, cause,
  pending_or, cause_without_event, next_requeue,
}

-- The cause by what the recorder has for a key: the first pending trigger decides, then a scheduled
-- requeue, then whether the key has been drained before.
abbrev recorded_cause : List Trigger → Option ScheduledRequeue → Bool → String
recorded_cause (t ∷ ts) q seen = cause (t ∷ ts)
recorded_cause [] (some q) seen = "requeue"
recorded_cause [] none false = "operator start"
recorded_cause [] none true = "periodic resync"

same_key_refl : (k : NamespacedName) → same_key k k ≡ true
same_key_refl k = rw (eq_refl k.namespace, eq_refl k.name) refl

module _ (show_duration : ℤ → String) where
  cause-pending_or :
      (now : ℕ) (key : NamespacedName) (ts : List Trigger) (q : Option ScheduledRequeue)
      (seen : Bool)
      → cause (pending_or (cause_without_event show_duration now key q seen) ts)
        ≡ recorded_cause ts q seen
  unfolding cause
  cause-pending_or now key (t ∷ ts) q seen = refl
  cause-pending_or now key [] (some q) seen = refl
  cause-pending_or now key [] none false = refl
  cause-pending_or now key [] none true = refl

  -- What Drain returns has the cause that the recorder's three maps give for the key.
  pub cause-drain :
      (now : ℕ) (key : NamespacedName) (r : Recorder)
      → cause (drain show_duration now key r).0
        ≡ recorded_cause (r.pending key) (r.requeues key) (r.seen key)
  unfolding drain
  cause-drain now key r = cause-pending_or now key (r.pending key) (r.requeues key) (r.seen key)

  -- A second Drain of a key, with no call in between, reports a periodic resync, whatever the first one
  -- has reported.
  cause-drain-drain :
      (now later : ℕ) (key : NamespacedName) (r : Recorder)
      → cause (drain show_duration later key (drain show_duration now key r).1).0
        ≡ "periodic resync"
  unfolding drain cause
  cause-drain-drain now later key r = rw (same_key_refl key) refl

  cause-next_requeue :
      (later done : ℕ) (key : NamespacedName) (reason : String) (after : ℤ) (failed : Bool)
      → cause (
          cause_without_event show_duration later key (next_requeue done reason after failed) true
          ∷ [])
        ≡ (if failed || is_pos after then "requeue" else "periodic resync")
  unfolding cause
  cause-next_requeue later done key reason after true = refl
  cause-next_requeue later done key reason after false = elim (Bool-cases (is_pos after)) [
    | inl positive ↦ rw positive refl
    | inr none_set ↦ rw none_set refl
  ]

  -- After Drain and Finish, the next Drain reports a requeue if the reconcile failed or asked for a
  -- requeue after a positive time, and a periodic resync otherwise.
  pub cause-drain-finish :
      (now done later : ℕ) (key : NamespacedName) (reason : String) (after : ℤ) (failed : Bool)
      (r : Recorder)
      → cause
          (drain show_duration later key
            (finish done key reason after failed (drain show_duration now key r).1)).0
        ≡ (if failed || is_pos after then "requeue" else "periodic resync")
  unfolding drain cause finish
  cause-drain-finish now done later key reason after failed r =
      rw (same_key_refl key) (cause-next_requeue later done key reason after failed)

  -- A store that is gone leaves nothing behind: after Forget and a Finish without an error and without
  -- a requeue, a store of the same key is reported as one that the operator has not seen.
  pub cause-drain-forget :
      (now done later : ℕ) (key : NamespacedName) (reason : String) (after : ℤ) (r : Recorder)
      → is_pos after ≡ false
      → cause
          (drain show_duration later key
            (finish done key reason after false (forget key (drain show_duration now key r).1))).0
        ≡ "operator start"
  unfolding drain cause finish forget
  cause-drain-forget now done later key reason after r h = rw (same_key_refl key, h) refl
