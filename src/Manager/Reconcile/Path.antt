-- ===== src/Manager/Reconcile/Path.antt =====
-- The states that a store goes through in a sequence of reconciles.
use shopware_operator.Prelude.{◌≡◌, refl, sym, ap, ◌∙◌, ◌≢◌, ◌⊎◌, inl, inr, List, [], ◌∷◌}
use shopware_operator.Kube.{Env, Result, ok, err}
use shopware_operator.Api.State.{AppState, empty, wait, setup, initializing, ready}
use shopware_operator.Api.Store.{Store, StoreSpec}
use shopware_operator.Manager.Base.{Base}
use shopware_operator.Manager.Reconcile.{reconcile_state}
use shopware_operator.Manager.Reconcile.Machine.{
  ◌⟶◌, begin, begin_unchecked, still_waiting, services_ready, started, serving, reconcile-⟶,
  reconcile_unregistered,
}

-- A reconcile in a sequence: the settings of the operator, what the world answers, and the
-- specification that the user has given the store by then.
pub record Turn : Type 0 where
  pub base : Base
  pub env : Env
  pub spec : StoreSpec

unfoldable pub take_turn : Turn → Store → Store
take_turn t s = (reconcile_state t.base t.env (record s { spec = t.spec })).store

-- The store after all reconciles of a sequence, and the states that it was in.
unfoldable pub run_turns : List Turn → Store → Store
run_turns [] s = s
run_turns (t ∷ ts) s = run_turns ts (take_turn t s)

unfoldable pub visited : List Turn → Store → List AppState
visited [] s = s.status.state ∷ []
visited (t ∷ ts) s = s.status.state ∷ visited ts (take_turn t s)

abbrev pub Visits : AppState → List AppState → Type 0
Visits a [] = ⊥
Visits a (b ∷ bs) = (a ≡ b) ⊎ Visits a bs

abbrev Follows : AppState → AppState → Type 0
Follows a b = (a ⟶ b) ⊎ (a ≡ b)

take_turn-Follows : (t : Turn) (s : Store) → Follows s.status.state (take_turn t s).status.state
unfolding take_turn
take_turn-Follows t s =
    by_outcome (reconcile_state t.base t.env (record s { spec = t.spec })).outcome refl
  where
    by_outcome :
        (r : Result (Unit {0}))
        → (reconcile_state t.base t.env (record s { spec = t.spec })).outcome ≡ r
        → Follows s.status.state
            (reconcile_state t.base t.env (record s { spec = t.spec })).store.status.state
    by_outcome (ok tt) e = inl (reconcile-⟶ t.base t.env (record s { spec = t.spec }) e)
    by_outcome (err text) e =
        let (_, same, _) = reconcile_unregistered t.base t.env (record s { spec = t.spec }) e in
        inr (ap (λ u. u.status.state) (sym same))

before_ready : {a b : AppState} → Follows a b → b ≡ ready → (a ≡ ready) ⊎ (initializing ≡ a)
before_ready (inr e) q = inl (e ∙ q)
before_ready (inl serving) q = inl refl
before_ready (inl started) q = inr refl
before_ready (inl _) q = cc

-- A state behind the setup.
abbrev IsLate : AppState → Type 0
IsLate a = (a ≢ empty) × (a ≢ wait)

before-IsLate : {a b : AppState} → Follows a b → IsLate b → IsLate a ⊎ (setup ≡ b)
before-IsLate (inr e) q = inl (λ h. q.0 (sym e ∙ h), λ h. q.1 (sym e ∙ h))
before-IsLate (inl begin) q = absurd (q.1 refl)
before-IsLate (inl still_waiting) q = absurd (q.1 refl)
before-IsLate (inl begin_unchecked) q = inr refl
before-IsLate (inl services_ready) q = inr refl
before-IsLate (inl _) q = inl (λ h. cc, λ h. cc)

Visits-initializing :
    (ts : List Turn) (s : Store)
    → (run_turns ts s).status.state ≡ ready
    → (s.status.state ≡ ready) ⊎ Visits initializing (visited ts s)
unfolding run_turns visited
Visits-initializing [] s e = inl e
Visits-initializing (t ∷ ts) s e = elim (Visits-initializing ts (take_turn t s) e) [
  | inr later ↦ inr (inr later)
  | inl now ↦ elim (before_ready (take_turn-Follows t s) now) [
    | inl earlier ↦ inl earlier
    | inr here ↦ inr (inl here)
  ]
]

Visits-setup :
    (ts : List Turn) (s : Store)
    → IsLate (run_turns ts s).status.state
    → IsLate s.status.state ⊎ Visits setup (visited ts s)
unfolding run_turns visited
Visits-setup [] s late = inl late
Visits-setup (t ∷ ts) s late = elim (Visits-setup ts (take_turn t s) late) [
  | inr later ↦ inr (inr later)
  | inl now ↦ elim (before-IsLate (take_turn-Follows t s) now) [
    | inl earlier ↦ inl earlier
    | inr here ↦ inr (inr (first ts (take_turn t s) here))
  ]
]
  where
    first : (ts : List Turn) (s : Store) → setup ≡ s.status.state → Visits setup (visited ts s)
    first [] s e = inl e
    first (t ∷ ts) s e = inl e

-- In any sequence of reconciles that brings a new store to the state ready, whatever the cluster
-- answers and however the user edits the specification between them, the store has been in the state
-- setup and in the state initializing.
pub ready_is_earned :
    (ts : List Turn) (s : Store)
    → s.status.state ≡ empty
    → (run_turns ts s).status.state ≡ ready
    → Visits setup (visited ts s) × Visits initializing (visited ts s)
ready_is_earned ts s new served = (
  elim (Visits-setup ts s (λ h. cc, λ h. cc)) [ inl late ↦ absurd (late.0 new) | inr seen ↦ seen ],
  elim (Visits-initializing ts s served) [ inl already ↦ cc | inr seen ↦ seen ],
)
