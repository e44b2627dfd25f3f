-- ===== src/Debugging/Reconcile/Cleaning.antt =====
-- When a debug instance is removed.
use shopware_operator.Prelude.{
  ℕ, ◌+◌, ◌≤◌, ◌<◌, ◌≡◌, ◌≢◌, refl, Bool, true, false, not, ◌&&◌, ◌||◌, Option, none, some, [], ◌∷◌,
  arith, ltb, ◌-◌, ap, ◌∙◌, sym, String, if◌then◌else◌, Bool-cases, inl, inr,
}
use shopware_operator.Prelude.Int.{ℤ, pos, negsuc}
use shopware_operator.Kube.{Env, PodPhase, Pod, Reply, found, absent, failed}
use shopware_operator.Api.State.{ready}
use shopware_operator.Api.Store.{Store, store_is_state}
use shopware_operator.Debugging.{
  DebugState, unspecified, wait, pending, running, done, error, other, StoreDebugInstance,
  debug_is_state, reconcile_debug_status, is_expired, by_pod, by_phase, debug_verdict,
  run_debug_instance, note_debug_error, admit_debug, being_deleted, debug_add_condition,
}
use shopware_operator.Debugging.Waiting.{followed, state-reconcile_debug_status}
use shopware_operator.Debugging.Reconcile.{
  instance, deletes, asking, skipping, on_delete, seconds, DebugReplies, debug_reconcile,
  is_cleanup_eligible, cleanup_remaining,
}

only_deletes :
    (reply : Reply (Unit {0}))
    → (asking
        (deletes instance)
        (on_delete reply (skipping none (seconds 10)) (skipping none (pos 0)))).requests
      ≡ deletes instance ∷ []
only_deletes (found x) = refl
only_deletes (absent e) = refl
only_deletes (failed e) = refl

-- At the end of its duration an instance that is done or in error is deleted, and nothing else.
due_deletion :
    (now later : ℕ) (d : StoreDebugInstance) (r : DebugReplies) (n : ℕ)
    → d.deletion_timestamp ≡ none
    → d.duration ≡ pos n
    → 0 < n
    → debug_is_state d (done ∷ error ∷ []) ≡ true
    → d.creation_timestamp + n ≤ now
    → (debug_reconcile now later d r).requests ≡ deletes instance ∷ []
unfolding debug_reconcile is_cleanup_eligible cleanup_remaining
due_deletion now later d r n alive lasts positive ended over =
    let started : ltb 0 n ≡ true = ground arith in
    let past : ltb 0 (d.creation_timestamp + n - now) ≡ false = ground arith in
    rw (alive, lasts, started, ended, past) (only_deletes (r.delete instance))

passes_guard : (a b : Bool) → a || b ≡ true → (not a && not b) ≡ false
passes_guard true b h = refl
passes_guard false true h = refl
passes_guard false false h = cc

-- An instance in error, of a store that is ready, or whose state is ignored, is deleted by a reconcile at the end of its duration
-- or later. Before that a reconcile asks for nothing and is not called again by a timer, whatever else
-- the API server answers: the end of the duration wakes nothing up.
pub error_not_woken :
    (d : StoreDebugInstance) (r : DebugReplies) (store : Store) (n : ℕ)
    → d.deletion_timestamp ≡ none
    → d.duration ≡ pos n
    → 0 < n
    → d.state ≡ error
    → r.get_store ≡ found store
    → d.ignore_store_status || store_is_state store (ready ∷ []) ≡ true
    → (now later : ℕ)
    → (now < d.creation_timestamp + n
        → (debug_reconcile now later d r).requests ≡ []
          × ((debug_reconcile now later d r).requeue_after ≡ pos 0))
      × (d.creation_timestamp + n ≤ now
          → (debug_reconcile now later d r).requests ≡ deletes instance ∷ [])
unfolding debug_reconcile is_cleanup_eligible cleanup_remaining
error_not_woken d r store n alive lasts positive e there is_ready now later = (
  λ early.
      let started : ltb 0 n ≡ true = ground arith in
      let left : ltb 0 (d.creation_timestamp + n - now) ≡ true = ground arith in
      let passes : (not d.ignore_store_status && not (store_is_state store (ready ∷ []))) ≡ false =
        passes_guard d.ignore_store_status (store_is_state store (ready ∷ [])) is_ready in
      rw (alive, lasts, e, started, left, there, passes) (refl, refl),
  λ over. due_deletion now later d r n alive lasts positive (rw e refl) over,
)

followed-done : (next s : DebugState) → followed next s ≡ done → s ≢ done → next ≡ done
followed-done next unspecified h fresh = h
followed-done next pending h fresh = h
followed-done next running h fresh = h
followed-done next wait h fresh = cc
followed-done next done h fresh = absurd (fresh refl)
followed-done next error h fresh = cc
followed-done next (other t) h fresh = cc

by_phase-next : (p : PodPhase) → (by_phase p).next ≢ done
by_phase-next PodPhase.pending h = cc
by_phase-next PodPhase.running h = cc
by_phase-next PodPhase.succeeded h = cc
by_phase-next PodPhase.failed_phase h = cc
by_phase-next PodPhase.unknown h = cc

by_pod-next : (p : Reply Pod) → (by_pod p).next ≢ done
by_pod-next (absent e) h = cc
by_pod-next (failed e) h = cc
by_pod-next (found p) h = by_phase-next p.phase h

is_expired-true :
    (now created : ℕ) (duration : ℤ)
    → is_expired now created duration ≡ true
    → (n : ℕ) × (duration ≡ pos n) × (0 < n) × (created + n ≤ now)
is_expired-true now created (pos n) h = (n, refl, ground arith, ground arith)
is_expired-true now created (negsuc n) h = cc

debug_verdict-done :
    (env : Env) (d : StoreDebugInstance)
    → (debug_verdict env d).next ≡ done
    → is_expired env.now d.creation_timestamp d.duration ≡ true
unfolding debug_verdict
debug_verdict-done env d h =
    elim (Bool-cases (is_expired env.now d.creation_timestamp d.duration)) [
      | inl over ↦ over
      | inr lives ↦ absurd (by_pod-next (env.get_pod d.namespace d.name) (rw lives at h))
    ]

-- What the removal reads besides the state
abbrev life : StoreDebugInstance → ℕ × ℤ × Option ℕ
life d = (d.creation_timestamp, d.duration, d.deletion_timestamp)

life-if :
    (b : Bool) (x y : StoreDebugInstance) (l : ℕ × ℤ × Option ℕ)
    → life x ≡ l
    → life y ≡ l
    → life (if b then x else y) ≡ l
life-if true x y l hx hy = hx
life-if false x y l hx hy = hy

life-note_debug_error :
    (now : ℕ) (e : Option String) (d : StoreDebugInstance)
    → life (note_debug_error now e d) ≡ life d
unfolding debug_add_condition
life-note_debug_error now none d = refl
life-note_debug_error now (some e) d = refl

life-admit_debug :
    (now : ℕ) (store : Store) (d : StoreDebugInstance)
    → life (admit_debug now (some store) d) ≡ life d
life-admit_debug now store d =
    life-if (debug_is_state d (unspecified ∷ [])) (record d { state = pending }) d (life d) refl
      refl

life-reconcile_debug_status :
    (env : Env) (store : Store) (e : Option String) (d : StoreDebugInstance)
    → life (reconcile_debug_status env (some store) e d) ≡ life d
unfolding reconcile_debug_status run_debug_instance debug_add_condition
life-reconcile_debug_status env store e d =
    let a = admit_debug env.now (some store) (note_debug_error env.now e d) in
    let admitted : life a ≡ life d =
      life-admit_debug env.now store (note_debug_error env.now e d)
      ∙ life-note_debug_error env.now e d in
    let test = debug_is_state a (running ∷ pending ∷ []) in
    life-if (being_deleted d.deletion_timestamp) d (if test then run_debug_instance env a else a)
      (life d) refl (life-if test (run_debug_instance env a) a (life d) admitted admitted)

-- A status update that ends an instance, one that was not done before, sees it expired: any later
-- reconcile asks for the deletion of the instance and for nothing else, so that its pod and its service
-- go with their owner and the requests for their deletion are not made.
pub done_is_deleted :
    (env : Env) (store : Store) (e : Option String) (d : StoreDebugInstance)
    → d.deletion_timestamp ≡ none
    → d.state ≢ done
    → (reconcile_debug_status env (some store) e d).state ≡ done
    → (now later : ℕ) (r : DebugReplies) → env.now ≤ now
    → (debug_reconcile now later (reconcile_debug_status env (some store) e d) r).requests
      ≡ deletes instance ∷ []
done_is_deleted env store e d alive fresh ends now later r after =
    let updated = reconcile_debug_status env (some store) e d in
    let kept : life updated ≡ life d = life-reconcile_debug_status env store e d in
    let by_age =
      followed-done (debug_verdict env d).next d.state
        (sym (state-reconcile_debug_status env store e d alive) ∙ ends) fresh in
    let (n, lasts, positive, over) =
      is_expired-true env.now d.creation_timestamp d.duration (debug_verdict-done env d by_age) in
    let created = ap (λ l. l.0) kept in
    due_deletion now later updated r n (ap (λ l. l.2) kept ∙ alive) (ap (λ l. l.1) kept ∙ lasts)
      positive (rw ends refl) (rw created (omega (arith, over, after)))
