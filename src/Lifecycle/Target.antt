-- ===== src/Lifecycle/Target.antt =====
-- The target of the gate vector, and the walk to the first shut gate.
use aigov.Gates.Verdict.{GateResult}
use aigov.Lifecycle.Advance.{gate_for_state}
use aigov.Lifecycle.Edges.{
  Forward, to_assessment, to_ceiling, to_intake, to_product, to_treatment, to_vendor,
}
use aigov.Lifecycle.ReEvaluate.{full_vector, target_from_vector}
use aigov.Lifecycle.Resting.{Walk, hop, passes, stop}
use aigov.Model.Enums.Lifecycle.{LifecycleState}
use aigov.Model.Rows.Domain.{UseCase}
use aigov.Model.Session.{Session}
use aigov.Prelude.{Bool, Option, arith, false, if◌then◌else◌, none, not, true, ℕ, ◌≡◌, ◌≤◌}

-- The first positional state whose gate is shut, or the ceiling.
abbrev pub first_shut : (LifecycleState → Bool) → LifecycleState
first_shut p =
    if not (p LifecycleState.vendor_check)
    then LifecycleState.vendor_check
    else if not (p LifecycleState.product_check)
    then LifecycleState.product_check
    else if not (p LifecycleState.intake)
    then LifecycleState.intake
    else if not (p LifecycleState.under_assessment)
    then LifecycleState.under_assessment
    else if not (p LifecycleState.treatment_pending)
    then LifecycleState.treatment_pending
    else LifecycleState.pending_authorisation

abbrev pub target : UseCase → Session → LifecycleState × Option GateResult
target u db = target_from_vector (full_vector u db)

pub target-first_shut : (u : UseCase) (db : Session) → (target u db).0 ≡ first_shut (passes u db)
unfolding full_vector target_from_vector gate_for_state
target-first_shut u db = ground arith

-- Nothing blocks exactly when every gate of the vector advances; then the target is the ceiling.
pub target_unblocked :
    (u : UseCase) (db : Session)
    → (target u db).1 ≡ none
    → (target u db).0 ≡ LifecycleState.pending_authorisation
unfolding full_vector target_from_vector
target_unblocked u db h = ground arith

-- A number for each state on the way to the ceiling, and one past it for the others.
abbrev pub place : LifecycleState → ℕ
place LifecycleState.requested = 0
place LifecycleState.vendor_check = 1
place LifecycleState.product_check = 2
place LifecycleState.intake = 3
place LifecycleState.under_assessment = 4
place LifecycleState.treatment_pending = 5
place LifecycleState.pending_authorisation = 6
place _ = 7

shut-first_shut :
    (p : LifecycleState → Bool)
    → p LifecycleState.requested ≡ true
    → (s : LifecycleState) → place s ≤ place (first_shut p)
    → p s ≡ false
    → s ≡ first_shut p
shut-first_shut p start LifecycleState.requested le h = cc
shut-first_shut p start s le h = ground arith

open-first_shut :
    (p : LifecycleState → Bool) {s t : LifecycleState}
    → Forward s t
    → place s ≤ place (first_shut p)
    → p s ≡ true
    → place t ≤ place (first_shut p)
open-first_shut p to_vendor le h = ground arith
open-first_shut p to_product le h = ground arith
open-first_shut p to_intake le h = ground arith
open-first_shut p to_assessment le h = ground arith
open-first_shut p to_treatment le h = ground arith
open-first_shut p to_ceiling le h = ground arith

pub Walk-first_shut :
    (p : LifecycleState → Bool) {s t : LifecycleState}
    → p LifecycleState.requested ≡ true
    → Walk p s t
    → place s ≤ place (first_shut p)
    → p t ≡ false
    → t ≡ first_shut p
Walk-first_shut p {s = s} start stop le h = shut-first_shut p start s le h
Walk-first_shut p start (hop o f w) le h = Walk-first_shut p start w (open-first_shut p f le o) h
