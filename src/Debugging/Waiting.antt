-- ===== src/Debugging/Waiting.antt =====
-- Which state of a debug instance follows which.
use shopware_operator.Prelude.{
  String, ◌≡◌, refl, ap, ◌∙◌, false, Option, none, some, List, [], ◌∷◌, if◌then◌else◌, inl, inr,
  Bool-cases,
}
use shopware_operator.Kube.{Env}
use shopware_operator.Api.Store.{Store}
use shopware_operator.Debugging.{
  being_deleted, DebugState, unspecified, wait, pending, running, done, error, other,
  StoreDebugInstance, debug_add_condition, debug_is_state, debug_verdict, run_debug_instance,
  note_debug_error, admit_debug, reconcile_debug_status,
}

abbrev pub followed : DebugState → DebugState → DebugState
followed next unspecified = next
followed next pending = next
followed next running = next
followed next wait = wait
followed next done = done
followed next error = error
followed next (other s) = other s

module _ (env : Env) where
  state-note_debug_error :
      (e : Option String) (d : StoreDebugInstance) → (note_debug_error env.now e d).state ≡ d.state
  unfolding debug_add_condition
  state-note_debug_error none d = refl
  state-note_debug_error (some e) d = refl

  debug_verdict-note_debug_error :
      (e : Option String) (d : StoreDebugInstance)
      → debug_verdict env (note_debug_error env.now e d) ≡ debug_verdict env d
  unfolding debug_add_condition debug_verdict
  debug_verdict-note_debug_error none d = refl
  debug_verdict-note_debug_error (some e) d = refl

  state-admitted :
      (store : Store) (d : StoreDebugInstance) (s : DebugState)
      → d.state ≡ s
      → (let a = admit_debug env.now (some store) d in
          if debug_is_state a (running ∷ pending ∷ []) then run_debug_instance env a else a).state
        ≡ followed (debug_verdict env d).next s
  unfolding run_debug_instance debug_verdict debug_add_condition
  state-admitted store d unspecified e = rw e refl
  state-admitted store d wait e = rw e refl
  state-admitted store d pending e = rw e refl
  state-admitted store d running e = rw e refl
  state-admitted store d done e = rw e refl
  state-admitted store d error e = rw e refl
  state-admitted store d (other t) e = rw e refl

  -- With the store in place, a status update of an instance that is not being deleted sets one that is
  -- new, pending or running to what its age and its pod say, and leaves any other in its state: one
  -- that waits for the store goes on waiting, though the store is there.
  pub state-reconcile_debug_status :
      (store : Store) (e : Option String) (d : StoreDebugInstance)
      → d.deletion_timestamp ≡ none
      → (reconcile_debug_status env (some store) e d).state
        ≡ followed (debug_verdict env d).next d.state
  unfolding reconcile_debug_status
  state-reconcile_debug_status store e d alive =
      let alive' : being_deleted d.deletion_timestamp ≡ false = ap being_deleted alive in
      rw alive' (
        state-admitted store (note_debug_error env.now e d) d.state (state-note_debug_error e d)
        ∙ ap (λ v. followed v.next d.state) (debug_verdict-note_debug_error e d))

  wait-reconcile :
      (store : Store) (e : Option String) (d : StoreDebugInstance)
      → d.state ≡ wait
      → (reconcile_debug_status env (some store) e d).state ≡ wait
  unfolding reconcile_debug_status
  wait-reconcile store e d w = elim (Bool-cases (being_deleted d.deletion_timestamp)) [
    | inl gone ↦ rw gone w
    | inr alive ↦
        rw alive (
          state-admitted store (note_debug_error env.now e d) wait (state-note_debug_error e d ∙ w))
  ]

-- Status updates with the store in place, one after the other.
unfoldable pub after_updates :
    List (Env × Store × Option String) → StoreDebugInstance → StoreDebugInstance
after_updates [] d = d
after_updates ((env, store, e) ∷ us) d =
    after_updates us (reconcile_debug_status env (some store) e d)

wait-after_updates :
    (us : List (Env × Store × Option String)) (d : StoreDebugInstance)
    → d.state ≡ wait
    → (after_updates us d).state ≡ wait
unfolding after_updates
wait-after_updates [] d w = w
wait-after_updates ((env, store, e) ∷ us) d w =
    wait-after_updates us (reconcile_debug_status env (some store) e d)
      (wait-reconcile env store e d w)

-- After one status update that did not get the store, no number of updates with the store brings an
-- instance out of the waiting state, whatever its pod and its age.
pub waits_forever :
    (env : Env) (e : Option String) (d : StoreDebugInstance)
    (us : List (Env × Store × Option String))
    → d.deletion_timestamp ≡ none
    → (after_updates us (reconcile_debug_status env none e d)).state ≡ wait
unfolding reconcile_debug_status debug_add_condition
waits_forever env e d us alive =
    let alive' : being_deleted d.deletion_timestamp ≡ false = ap being_deleted alive in
    rw alive' (wait-after_updates us _ refl)
