-- ===== src/Execs/Machine.antt =====
-- Which state of a command follows which.
use shopware_operator.Prelude.{
  String, ◌≡◌, refl, sym, ap, ◌∙◌, ◌≢◌, Option, none, some, [], ◌∷◌, if◌then◌else◌,
}
use shopware_operator.Kube.{Job, Env}
use shopware_operator.Api.Store.{Store}
use shopware_operator.Manager.Jobs.{Progress}
use shopware_operator.Manager.Jobs.Evidence.{Backed, reply_finished}
use shopware_operator.Execs.{
  ExecState, empty, wait, running, done, error, other, StoreExec, command_container,
  command_progress, command_next, run_command, note_error, admit, exec_add_condition, exec_is_state,
  reconcile_exec_status,
}

-- Where the store is there: a command that has not ended follows its job, and one that has ended stays
-- as it is.
abbrev pub followed : Progress → ExecState → ExecState
followed p empty = command_next p
followed p wait = command_next p
followed p running = command_next p
followed p done = done
followed p error = error
followed p (other s) = other s

module _ (env : Env) where
  state-note_error :
      (e : Option String) (ex : StoreExec)
      → (note_error env.now e ex).status.state ≡ ex.status.state
  unfolding exec_add_condition
  state-note_error none ex = refl
  state-note_error (some e) ex = refl

  command_progress-note_error :
      (e : Option String) (ex : StoreExec)
      → command_progress env (note_error env.now e ex) ≡ command_progress env ex
  unfolding exec_add_condition command_progress
  command_progress-note_error none ex = refl
  command_progress-note_error (some e) ex = refl

  state-reconcile_admitted :
      (store : Store) (ex : StoreExec) (s : ExecState)
      → ex.status.state ≡ s
      → (let a = admit env.now (some store) ex in
          if exec_is_state a (running ∷ []) then run_command env a else a).status.state
        ≡ followed (command_progress env ex) s
  unfolding run_command command_progress exec_add_condition
  state-reconcile_admitted store ex empty e = rw e refl
  state-reconcile_admitted store ex wait e = rw e refl
  state-reconcile_admitted store ex running e = rw e refl
  state-reconcile_admitted store ex done e = rw e refl
  state-reconcile_admitted store ex error e = rw e refl
  state-reconcile_admitted store ex (other t) e = rw e refl

  -- With the store in place, a status update sets an exec that is new, waiting or running to what its job
  -- has come to, and leaves an exec that is done, in error or in an unknown state in its state.
  pub state-reconcile_exec_status :
      (store : Store) (e : Option String) (ex : StoreExec)
      → (reconcile_exec_status env (some store) e ex).status.state
        ≡ followed (command_progress env ex) ex.status.state
  unfolding reconcile_exec_status
  state-reconcile_exec_status store e ex =
      state-reconcile_admitted store (note_error env.now e ex) ex.status.state
        (state-note_error e ex)
      ∙ ap (λ p. followed p ex.status.state) (command_progress-note_error e ex)

  command_next-done : (p : Progress) → command_next p ≡ done → (j : Job) × (p ≡ Progress.finished j)
  command_next-done (Progress.finished j) q = (j, refl)
  command_next-done _ q = cc

  followed-done :
      (p : Progress) (s : ExecState)
      → s ≢ done
      → followed p s ≡ done
      → (j : Job) × (p ≡ Progress.finished j)
  followed-done p done h q = absurd (h refl)
  followed-done p error h q = cc
  followed-done p (other t) h q = cc
  followed-done p empty h q = command_next-done p q
  followed-done p wait h q = command_next-done p q
  followed-done p running h q = command_next-done p q

  -- Without the store, a status update sets every exec to waiting, one that is done or in error too.
  pub exec_without_store :
      (e : Option String) (ex : StoreExec)
      → (reconcile_exec_status env none e ex).status.state ≡ wait
  unfolding reconcile_exec_status exec_add_condition
  exec_without_store e ex = refl

  -- An exec becomes done only if its store is there and the API server has its job and that job has
  -- succeeded, or its container has completed in one of the pods of the job.
  pub exec_done_is_Backed :
      (store : Option Store) (e : Option String) (ex : StoreExec)
      → ex.status.state ≢ done
      → (reconcile_exec_status env store e ex).status.state ≡ done
      → ((s : Store) × (store ≡ some s))
        × Backed env command_container (env.get_job ex.namespace ex.name)
  unfolding command_progress
  exec_done_is_Backed none e ex h q = absurd (let waits = sym (exec_without_store e ex) ∙ q in cc)
  exec_done_is_Backed (some store) e ex h q =
      let (j, p) =
        followed-done (command_progress env ex) ex.status.state h
          (sym (state-reconcile_exec_status store e ex) ∙ q) in
      ((store, refl), reply_finished env command_container (env.get_job ex.namespace ex.name) j p)
