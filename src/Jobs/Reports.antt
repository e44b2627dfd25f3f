-- ===== src/Jobs/Reports.antt =====
-- What stands behind the state of a job that IsJobContainerDone reports.
use shopware_operator.Prelude.{
  String, ◌≡◌, refl, ap, ◌⊎◌, inl, inr, Bool, true, false, some, List, [], ◌∷◌, arith, ◌==◌,
  if◌then◌else◌, All, Bool-cases,
}
use mathlib.Core.Path.{subst}
use shopware_operator.Prelude.Int.{ℤ, pos, negsuc, eqb_ℤ, is_pos}
use shopware_operator.Kube.{
  Reply, found, absent, failed, Pod, Job, Env, Result, ok, err, eq_of_ok-eq,
}
use shopware_operator.Jobs.{
  JobState, has_errors, is_done, still_running, completed, Scan, returns, goes_on, and_try,
  scan_reply, scan_selected, scan_job, fall_back_failed, scan_pods, scan_containers, fall_back,
  conclude, is_job_container_done,
}
use shopware_operator.Jobs.Outcome.{
  pods_completed, pods_exited, Yields, All-last_of, scan_pods-Yields,
}

-- The pods that the API server lists for the job.
abbrev pub Lists : Env → Job → List Pod → Type 0
Lists env job pods =
    (selector : String) × (env.as_selector job.selector ≡ found selector)
    × (env.list_pods job.namespace selector ≡ found pods)

module _ (env : Env) (name : String) (job : Job) where
  -- The container completed in one of the pods of the job.
  abbrev pub Completed : Type 0
  Completed = (pods : List Pod) × Lists env job pods × (pods_completed name pods ≡ true)

  -- The container ended with this exit code in one of the pods of the job.
  abbrev pub Exited : ℤ → Type 0
  Exited code = (pods : List Pod) × Lists env job pods × (pods_exited name code pods ≡ true)

  abbrev Evidence : JobState → Type 0
  Evidence s =
      (s ≡ still_running)
      ⊎ ((s ≡ completed) × Completed)
      ⊎ ((s.running ≡ false) × (eqb_ℤ s.exit_code (pos 0) ≡ false) × Exited s.exit_code)

  abbrev YieldsTry : Result Scan → Type 0
  YieldsTry (err e) = Unit
  YieldsTry (ok s) = Yields Evidence s

  -- The pods that are scanned are the ones that the API server lists.
  scan_pods-Evidence :
      (pods : List Pod) (errors : List JobState)
      → Lists env job pods
      → All Evidence errors
      → Yields Evidence (scan_pods name pods errors)
  scan_pods-Evidence pods errors l h =
      scan_pods-Yields Evidence (inl refl) name pods errors
        (λ seen. inr (inl (refl, (pods, l, seen))))
        (λ code seen fails. inr (inr (refl, fails, (pods, l, seen)))) h

  listed-Evidence :
      (selector : String) (errors : List JobState) (pods : Reply (List Pod))
      → env.as_selector job.selector ≡ found selector
      → env.list_pods job.namespace selector ≡ pods
      → All Evidence errors
      → YieldsTry (scan_reply name errors pods)
  listed-Evidence selector errors (absent e) s l h = tt
  listed-Evidence selector errors (failed e) s l h = tt
  listed-Evidence selector errors (found pods) s l h =
      scan_pods-Evidence pods errors (selector, s, l) h

  selected-Evidence :
      (errors : List JobState) (selector : Reply String)
      → env.as_selector job.selector ≡ selector
      → All Evidence errors
      → YieldsTry (scan_selected env name job errors selector)
  selected-Evidence errors (absent e) s h = tt
  selected-Evidence errors (failed e) s h = tt
  selected-Evidence errors (found selector) s h =
      listed-Evidence selector errors (env.list_pods job.namespace selector) s refl h

  and_try-Evidence :
      (s : Result Scan) (rest : List JobState → Result Scan)
      → YieldsTry s
      → ((errors : List JobState) → All Evidence errors → YieldsTry (rest errors))
      → YieldsTry (and_try s rest)
  and_try-Evidence (err e) rest h k = tt
  and_try-Evidence (ok (returns s)) rest h k = h
  and_try-Evidence (ok (goes_on errors)) rest h k = k errors h

  scan_containers-Evidence :
      (cs : List String) (errors : List JobState)
      → All Evidence errors
      → YieldsTry (scan_containers env name job cs errors)
  unfolding scan_containers
  scan_containers-Evidence [] errors h = h
  scan_containers-Evidence (c ∷ cs) errors h =
      and_try-Evidence (if c == name then scan_job env name job errors else ok (goes_on errors))
        (scan_containers env name job cs) scanned (scan_containers-Evidence cs)
    where
      scanned : YieldsTry (if c == name then scan_job env name job errors else ok (goes_on errors))
      scanned = elim (Bool-cases (c == name)) [
        | inl e ↦ rw (e, YieldsTry) (selected-Evidence errors (env.as_selector job.selector) refl h)
        | inr e ↦ rw (e, YieldsTry) h
      ]

  -- A state that is returned without an error was seen in a pod, or is what the job's own counters
  -- say.
  abbrev Counted : JobState → Type 0
  Counted s =
      ((s ≡ completed) × (is_pos job.succeeded ≡ true))
      ⊎ ((s ≡ record { exit_code = negsuc 403; running = false }) × (is_pos job.failed_pods ≡ true))
      ⊎ (s.running ≡ true)

  failed-Evidence :
      (errors : List JobState)
      → All Evidence errors
      → Evidence (fall_back_failed job errors) ⊎ Counted (fall_back_failed job errors)
  failed-Evidence (e ∷ es) h = inl (All-last_of Evidence e es h)
  failed-Evidence [] h = elim (Bool-cases (is_pos job.failed_pods)) [
    | inl e ↦ rw e (inr (inr (inl (refl, refl))))
    | inr e ↦ rw e (inr (inr (inr refl)))
  ]

  Counted-Evidence :
      (b : Bool) (errors : List JobState)
      → is_pos job.succeeded ≡ b
      → All Evidence errors
      → let s = if b then completed else fall_back_failed job errors in Evidence s ⊎ Counted s
  Counted-Evidence true errors e h = inr (inl (refl, e))
  Counted-Evidence false errors e h = failed-Evidence errors h

  fall_back-Evidence :
      (errors : List JobState)
      → All Evidence errors
      → Evidence (fall_back job errors) ⊎ Counted (fall_back job errors)
  unfolding fall_back
  fall_back-Evidence errors h = Counted-Evidence (is_pos job.succeeded) errors refl h

  concluded :
      (r : Result Scan) {s : JobState}
      → YieldsTry r
      → conclude job r ≡ ok s
      → Evidence s ⊎ Counted s
  concluded (err e) h q = cc
  concluded (ok (returns s)) h q = subst (λ t. Evidence t ⊎ Counted t) (eq_of_ok-eq q) (inl h)
  concluded (ok (goes_on errors)) h q =
      subst (λ t. Evidence t ⊎ Counted t) (eq_of_ok-eq q) (fall_back-Evidence errors h)

  reported :
      {s : JobState} → is_job_container_done env (some job) name ≡ ok s → Evidence s ⊎ Counted s
  unfolding is_job_container_done
  reported q =
      concluded (scan_containers env name job job.containers [])
        (scan_containers-Evidence job.containers [] tt) q

  -- A job that IsJobContainerDone reports as done without errors has succeeded by its own count, or
  -- its container has completed in a pod that the API server lists for the job.
  pub done_is_backed :
      (s : JobState)
      → is_job_container_done env (some job) name ≡ ok s
      → is_done s ≡ true
      → has_errors s ≡ false
      → (is_pos job.succeeded ≡ true) ⊎ Completed
  unfolding is_done has_errors
  done_is_backed s q d e = elim (reported q) [
    | inl (inl r) ↦ ground arith
    | inl (inr (inl (r, c))) ↦ inr c
    | inl (inr (inr (r, f, x))) ↦ ground arith
    | inr (inl (r, c)) ↦ inl c
    | inr (inr (inl (r, c))) ↦ ground arith
    | inr (inr (inr r)) ↦ ground arith
  ]

  -- A job that is reported as done with errors has failed by its own count, and the exit code is
  -- -404, or its container has ended with the exit code that is reported, which is not 0, in a pod
  -- that the API server lists for the job.
  pub error_is_backed :
      (s : JobState)
      → is_job_container_done env (some job) name ≡ ok s
      → is_done s ≡ true
      → has_errors s ≡ true
      → ((is_pos job.failed_pods ≡ true) × (s.exit_code ≡ negsuc 403)) ⊎ Exited s.exit_code
  unfolding is_done has_errors
  error_is_backed s q d e = elim (reported q) [
    | inl (inl r) ↦ ground arith
    | inl (inr (inl (r, c))) ↦ ground arith
    | inl (inr (inr (r, f, x))) ↦ inr x
    | inr (inl (r, c)) ↦ ground arith
    | inr (inr (inl (r, c))) ↦ inl (c, ap (λ t. t.exit_code) r)
    | inr (inr (inr r)) ↦ ground arith
  ]
