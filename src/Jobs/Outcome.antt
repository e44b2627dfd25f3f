-- ===== src/Jobs/Outcome.antt =====
-- What a job that is reported as done has shown.
use shopware_operator.Prelude.{
  String, ◌≡◌, refl, inl, inr, Bool, true, false, ◌||◌, Option, none, some, List, [], ◌∷◌, ◌++◌,
  ◌==◌, All, any, Bool-cases, Option-cases, eq_of_some-eq,
}
use mathlib.Core.Path.{subst}
use shopware_operator.Prelude.Int.{ℤ, pos, eqb_ℤ, eqb_ℤ_iff}
use shopware_operator.Kube.{Terminated, ContainerStatus, Pod}
use shopware_operator.Jobs.{
  JobState, still_running, completed, Scan, returns, goes_on, status_returns, status_errors,
  terminated_returns, terminated_errors, scan_statuses, is_pending, scan_pods, and_then, last_of,
}

-- The container `name` has terminated, and the kubelet calls it completed.
abbrev pub completed_at : Bool → Option Terminated → Bool
completed_at false o = false
completed_at true none = false
completed_at true (some t) = t.reason == "Completed"

abbrev has_completed : String → ContainerStatus → Bool
has_completed name c = completed_at (c.name == name) c.terminated

abbrev pub pods_completed : String → List Pod → Bool
pods_completed name pods = any (λ p. any (has_completed name) p.container_statuses) pods

-- The container `name` has terminated with this exit code.
abbrev exited_at : ℤ → Bool → Option Terminated → Bool
exited_at code false o = false
exited_at code true none = false
exited_at code true (some t) = eqb_ℤ t.exit_code code

abbrev has_exited : String → ℤ → ContainerStatus → Bool
has_exited name code c = exited_at code (c.name == name) c.terminated

abbrev pub pods_exited : String → ℤ → List Pod → Bool
pods_exited name code pods = any (λ p. any (has_exited name code) p.container_statuses) pods

or_true : (b : Bool) → (b || true) ≡ true
or_true true = refl
or_true false = refl

eqb_ℤ_refl : (a : ℤ) → eqb_ℤ a a ≡ true
eqb_ℤ_refl a = (eqb_ℤ_iff a a).1 refl

module _ (Q : JobState → Type 0) where
  All-append : (xs ys : List JobState) → All Q xs → All Q ys → All Q (xs ++ ys)
  All-append [] ys h k = k
  All-append (x ∷ xs) ys h k = (h.0, All-append xs ys h.1 k)

  pub All-last_of : (e : JobState) (es : List JobState) → All Q (e ∷ es) → Q (last_of e es)
  All-last_of e [] h = h.0
  All-last_of e (f ∷ es) h = All-last_of f es h.1

  -- Whatever a scan returns or collects satisfies Q.
  abbrev pub Yields : Scan → Type 0
  Yields (returns s) = Q s
  Yields (goes_on errors) = All Q errors

  and_then-Yields :
      (s : Scan) (rest : List JobState → Scan)
      → Yields s
      → ((errors : List JobState) → All Q errors → Yields (rest errors))
      → Yields (and_then s rest)
  and_then-Yields (returns s) rest h k = h
  and_then-Yields (goes_on errors) rest h k = k errors h

  abbrev pub FromExits : (ℤ → Bool) → Type 0
  FromExits seen =
      (code : ℤ)
      → seen code ≡ true
      → eqb_ℤ code (pos 0) ≡ false
      → Q (record { exit_code = code; running = false })

  module _ (running : Q still_running) where
    errors_at-Q :
        (b : Bool) (o : Option Terminated)
        → FromExits (λ code. exited_at code b o)
        → All Q (terminated_errors b o)
    errors_at-Q false o h = tt
    errors_at-Q true none h = tt
    errors_at-Q true (some t) h = elim (Bool-cases (eqb_ℤ t.exit_code (pos 0))) [
      | inl zero ↦ rw zero tt
      | inr fails ↦ rw fails (h t.exit_code (eqb_ℤ_refl t.exit_code) fails, tt)
    ]

    returns_at-Q :
        (b : Bool) (o : Option Terminated) {s : JobState}
        → (completed_at b o ≡ true → Q completed)
        → terminated_returns b o ≡ some s
        → Q s
    returns_at-Q false o h e = cc
    returns_at-Q true none h e = subst Q (eq_of_some-eq e) running
    returns_at-Q true (some t) h e = elim (Bool-cases (t.reason == "Completed")) [
      | inl done ↦ subst Q (eq_of_some-eq (rw done at e)) (h done)
      | inr other ↦ cc (rw other at e)
    ]

    module _ (name : String) where
      scan_statuses-Yields :
          (cs : List ContainerStatus) (errors : List JobState)
          → (any (has_completed name) cs ≡ true → Q completed)
          → FromExits (λ code. any (has_exited name code) cs)
          → All Q errors
          → Yields (scan_statuses name errors cs)
      unfolding scan_statuses
      scan_statuses-Yields [] errors done exits h = h
      scan_statuses-Yields (c ∷ cs) errors done exits h =
          elim (Option-cases (status_returns name c)) [
            | inl e ↦
                rw (e, Yields)
                  (scan_statuses-Yields cs (errors ++ status_errors name c)
                    (λ seen. done (rw seen (or_true (has_completed name c))))
                    (λ code seen. exits code (rw seen (or_true (has_exited name code c))))
                    (All-append errors (status_errors name c) h (
                      errors_at-Q (c.name == name) c.terminated
                        (λ code seen. exits code (rw seen)))))
            | inr (s, e) ↦
                rw (e, Yields)
                  (returns_at-Q (c.name == name) c.terminated (λ seen. done (rw seen)) e)
          ]

      pub scan_pods-Yields :
          (ps : List Pod) (errors : List JobState)
          → (pods_completed name ps ≡ true → Q completed)
          → FromExits (λ code. pods_exited name code ps)
          → All Q errors
          → Yields (scan_pods name ps errors)
      unfolding scan_pods
      scan_pods-Yields [] errors done exits h = h
      scan_pods-Yields (p ∷ ps) errors done exits h = elim (Bool-cases (is_pending p.phase)) [
        | inl waits ↦ rw (waits, Yields) running
        | inr started ↦
            rw (started, Yields)
              (and_then-Yields (scan_statuses name errors p.container_statuses) (scan_pods name ps)
                (scan_statuses-Yields p.container_statuses errors (λ seen. done (rw seen))
                  (λ code seen. exits code (rw seen)) h)
                (λ more hm.
                  scan_pods-Yields ps more
                    (λ seen.
                      done (rw seen (or_true (any (has_completed name) p.container_statuses))))
                    (λ code seen.
                      exits code
                        (rw seen (or_true (any (has_exited name code) p.container_statuses))))
                    hm))
      ]
