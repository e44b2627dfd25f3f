-- ===== src/Execs/Cleanup/Deletion.antt =====
-- When a finished command is removed.
use shopware_operator.Prelude.{
  ℕ, ◌+◌, ◌≤◌, ◌≡◌, ◌≢◌, refl, ap, ◌∙◌, if◌then◌else◌, eq_of_some-eq, ◌↔◌, true, false, Option,
  none, some, List, [], ◌∷◌, ◌++◌, arith, eq_iff, ◌<◌, All, ltb, eqb, inl, inr, Bool-cases,
  Option-cases,
}
use shopware_operator.Prelude.Int.{ℤ, pos, negsuc}
use shopware_operator.Kube.{Reply, found, absent, failed}
use shopware_operator.Api.Store.{Store}
use shopware_operator.Execs.{
  ExecState, empty, wait, running, done, error, other, ExecCondition, StoreExec, exec_is_state,
}
use shopware_operator.Execs.Cleanup.{
  positive, period_of, is_set, cleanup_period_for, last_transition, store_exec_finished_at, Cleanup,
  goes_on, returns_after, deletes, cleanup_at, reconcile_store_exec_cleanup, deletion, plan_with,
  plan_after, exec_plan,
}

-- The period of the state that the exec has ended in, which is positive
abbrev Period : StoreExec → ExecState → ℕ → Type 0
Period ex done period = (ex.spec.cleanup_period_successful_exec ≡ pos period) × (0 < period)
Period ex error period = (ex.spec.cleanup_period_error_exec ≡ pos period) × (0 < period)
Period ex _ period = ⊥

-- The newest condition with a transition time, and this time
abbrev Transition : List ExecCondition → ℕ → Type 0
Transition cs t =
    (before : List ExecCondition) × (c : ExecCondition) × (after : List ExecCondition) × (cs
      ≡ before ++ c ∷ after)
    × (c.last_transition_time ≡ t)
    × (t ≢ 0)
    × All (λ d. d.last_transition_time ≡ 0) after

-- The exec has ended, in a state whose period is positive and over.
abbrev IsOver : ℕ → StoreExec → Type 0
IsOver now ex =
    (period : ℕ) × (finished : ℕ) × Period ex ex.status.state period
    × Transition ex.status.conditions finished
    × (finished + period ≤ now)

pos_inj : (m n : ℕ) → ◌≡◌ {A = ℤ} (pos m) (pos n) → m ≡ n
pos_inj m n e = cc

positive_iff : (z : ℤ) (n : ℕ) → (positive z ≡ some n) ↔ ((z ≡ pos n) × (0 < n))
positive_iff (pos m) n = elim (Bool-cases (ltb 0 m)) [
  | inl some_time ↦ rw some_time (
    λ h. let same : m ≡ n = eq_of_some-eq h in (rw same refl, ground arith),
    λ (e, _). ap some (pos_inj m n e),
  )
  | inr no_time ↦ rw no_time (λ h. cc, λ (e, h). let same = pos_inj m n e in ground arith)
]
positive_iff (negsuc m) n = (λ h. cc, λ h. cc)

period_of-Period :
    (ex : StoreExec) (s : ExecState) (n : ℕ) → (period_of ex s ≡ some n) ↔ Period ex s n
period_of-Period ex done n = positive_iff ex.spec.cleanup_period_successful_exec n
period_of-Period ex error n = positive_iff ex.spec.cleanup_period_error_exec n
period_of-Period ex empty n = (λ h. cc, λ h. absurd h)
period_of-Period ex wait n = (λ h. cc, λ h. absurd h)
period_of-Period ex running n = (λ h. cc, λ h. absurd h)
period_of-Period ex (other t) n = (λ h. cc, λ h. absurd h)

unset_none : (t : ℕ) → (if eqb t 0 then none else some t) ≡ none → t ≡ 0
unset_none t h = ground arith

set_time : (t u : ℕ) → (if eqb t 0 then none else some t) ≡ some u → (t ≡ u) × (u ≢ 0)
set_time t u h = ground arith

none-last_transition :
    (cs : List ExecCondition)
    → last_transition cs ≡ none
    → All (λ (d : ExecCondition). d.last_transition_time ≡ 0) cs
none-last_transition [] h = tt
none-last_transition (c ∷ cs) h = elim (Option-cases (last_transition cs)) [
  | inl later ↦ (unset_none c.last_transition_time (rw later at h), none-last_transition cs later)
  | inr (t, later) ↦ let h' = rw later at h in cc
]

last_transition-Transition :
    (cs : List ExecCondition) (t : ℕ) → last_transition cs ≡ some t → Transition cs t
last_transition-Transition [] t h = cc
last_transition-Transition (c ∷ cs) t h = elim (Option-cases (last_transition cs)) [
  | inl later ↦
      let (time, set) = set_time c.last_transition_time t (rw later at h) in
      ([], c, cs, refl, time, set, none-last_transition cs later)
  | inr (u, later) ↦
      let same : u ≡ t = eq_of_some-eq (rw later at h) in
      let (before, d, after, e, time, set, zeros) =
        last_transition-Transition cs t (later ∙ ap some same) in
      (c ∷ before, d, after, ap (λ ds. c ∷ ds) e, time, set, zeros)
]

zeros-last_transition :
    (cs : List ExecCondition)
    → All (λ (d : ExecCondition). d.last_transition_time ≡ 0) cs
    → last_transition cs ≡ none
zeros-last_transition [] h = refl
zeros-last_transition (c ∷ cs) h = rw (zeros-last_transition cs h.1, h.0) refl

set_some : (u t : ℕ) → u ≡ t → t ≢ 0 → (if eqb u 0 then none else some u) ≡ some t
set_some u t e set = ground arith

Transition-last_transition :
    (cs : List ExecCondition) (t : ℕ) → Transition cs t → last_transition cs ≡ some t
Transition-last_transition cs t (before, c, after, e, time, set, zeros) = rw e (
    skip before _
      (rw (zeros-last_transition after zeros) (set_some c.last_transition_time t time set)))
  where
    skip :
        (before cs : List ExecCondition)
        → last_transition cs ≡ some t
        → last_transition (before ++ cs) ≡ some t
    skip [] cs h = h
    skip (d ∷ ds) cs h = rw (skip ds cs h) refl

plan_with-deletion : (ex : StoreExec) (r : Reply Store) → (plan_with ex r).ensures ≢ deletion
plan_with-deletion ex (absent e) h = cc
plan_with-deletion ex (failed e) h = cc
plan_with-deletion ex (found store) h = ground arith

plan_after-deletion :
    (c : Cleanup) (ex : StoreExec) (r : Reply Store)
    → (plan_after c ex r).ensures ≡ deletion
    → c ≡ deletes
plan_after-deletion goes_on ex r h = absurd (plan_with-deletion ex r h)
plan_after-deletion (returns_after t) ex r h = cc
plan_after-deletion deletes ex r h = refl

cleanup_at-deletes :
    (now : ℕ) (p f : Option ℕ)
    → cleanup_at now p f ≡ deletes
    → (period : ℕ) × (finished : ℕ) × (p ≡ some period)
      × (f ≡ some finished)
      × (finished + period ≤ now)
cleanup_at-deletes now (some p) (some f) h = (p, f, refl, refl, ground arith)
cleanup_at-deletes now (some p) none h = cc
cleanup_at-deletes now none f h = cc

not_set : {A : Type 0} (o : Option A) → is_set o ≡ false → o ≡ none
not_set none h = refl
not_set (some a) h = cc

cleanup_period_for-some :
    (ex : StoreExec) (period : ℕ)
    → cleanup_period_for ex ≡ some period
    → (ex.deletion_timestamp ≡ none)
      × (ex.spec.cron_schedule ≡ "")
      × (period_of ex ex.status.state ≡ some period)
unfolding cleanup_period_for
cleanup_period_for-some ex period h =
    ground (arith, eq_iff ex.spec.cron_schedule "", not_set ex.deletion_timestamp)

some-cleanup_period_for :
    (ex : StoreExec) (period : ℕ)
    → ex.deletion_timestamp ≡ none
    → ex.spec.cron_schedule ≡ ""
    → period_of ex ex.status.state ≡ some period
    → cleanup_period_for ex ≡ some period
unfolding cleanup_period_for
some-cleanup_period_for ex period d c h =
    ground (arith, eq_iff ex.spec.cron_schedule "", ap is_set d)

deletes-cleanup_at :
    (now period finished : ℕ)
    → finished + period ≤ now
    → cleanup_at now (some period) (some finished) ≡ deletes
deletes-cleanup_at now period finished h = ground arith

ended_of_period :
    (ex : StoreExec) (s : ExecState) (period : ℕ)
    → ex.status.state ≡ s
    → period_of ex s ≡ some period
    → exec_is_state ex (done ∷ error ∷ []) ≡ true
ended_of_period ex done period e h = rw e refl
ended_of_period ex error period e h = rw e refl
ended_of_period ex empty period e h = cc
ended_of_period ex wait period e h = cc
ended_of_period ex running period e h = cc
ended_of_period ex (other t) period e h = cc

-- A reconcile deletes an exec exactly when it is not being deleted already, has no schedule, has ended
-- in a state whose period is positive, and that period is over since the last transition recorded.
pub exec_deletion_iff :
    (now : ℕ) (ex : StoreExec) (r : Reply Store)
    → ((exec_plan now ex r).ensures ≡ deletion)
      ↔ ((ex.deletion_timestamp ≡ none) × (ex.spec.cron_schedule ≡ "") × IsOver now ex)
unfolding exec_plan reconcile_store_exec_cleanup store_exec_finished_at
exec_deletion_iff now ex r = (
  λ h.
      let c = plan_after-deletion (reconcile_store_exec_cleanup now ex) ex r h in
      let (period, finished, p, f, over) =
        cleanup_at-deletes now (cleanup_period_for ex) (store_exec_finished_at ex) c in
      let (alive, unscheduled, q) = cleanup_period_for-some ex period p in
      let ended = ended_of_period ex ex.status.state period refl q in
      let time = last_transition-Transition ex.status.conditions finished (rw ended at f) in
      (
        alive,
        unscheduled,
        (period, finished, (period_of-Period ex ex.status.state period).0 q, time, over),
      ),
  λ (alive, unscheduled, (period, finished, of_state, time, over)).
      let q = (period_of-Period ex ex.status.state period).1 of_state in
      let f = Transition-last_transition ex.status.conditions finished time in
      let ended = ended_of_period ex ex.status.state period refl q in
      let p = some-cleanup_period_for ex period alive unscheduled q in
      rw (p, ended, f, deletes-cleanup_at now period finished over) refl,
)
