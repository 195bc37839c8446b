-- ===== src/Examples/Lifecycle.antt =====
-- app/services/lifecycle_service.py at work on the small tenant.
use aigov.Examples.World.{forbidden, half_cleared, uncleared, use_case_in}
use aigov.Gates.Clearance.{vendor_gate}
use aigov.Gates.Readiness.{classification_readiness}
use aigov.Lifecycle.Advance.{advance_use_case}
use aigov.Lifecycle.Arrival.{
  Moved, Succeeds, advance_use_case-Rests, advance_use_case-halts, advance_use_case-target,
}
use aigov.Lifecycle.Edges.{Edge, is_legal_iff-Edge}
use aigov.Lifecycle.Fixpoint.{re_evaluate-settled}
use aigov.Lifecycle.Integrity.{apply_transition-IsSound}
use aigov.Lifecycle.Legality.{Event, is_legal}
use aigov.Lifecycle.ReEvaluate.{full_vector, re_evaluate, target_from_vector}
use aigov.Lifecycle.Repeat.{
  re_evaluate-regress_and_restore, re_evaluate_twice, re_evaluate_twice-settles,
}
use aigov.Lifecycle.Resting.{Rests}
use aigov.Lifecycle.Settling.{settled_state}
use aigov.Lifecycle.Target.{target}
use aigov.Lifecycle.Trail.{IsSound}
use aigov.Lifecycle.Transition.{apply_transition}
use aigov.Model.Enums.Lifecycle.{LifecycleState}
use aigov.Prelude.{arith, none, ok, refl, true, ◌↔◌, ◌≡◌, ◌⊎◌}

is_legal_iff-Edge_example :
    ((is_legal LifecycleState.intake Event.hold LifecycleState.held ≡ true)
      ↔ Edge LifecycleState.intake Event.hold LifecycleState.held)
    × ((is_legal LifecycleState.intake Event.hold LifecycleState.authorised ≡ true) ↔ (
        ((LifecycleState.intake ≡ LifecycleState.pending_authorisation)
          × (Event.hold ≡ Event.authorise))
        ⊎ ((LifecycleState.intake ≡ LifecycleState.held) × (Event.hold ≡ Event.restore))))
is_legal_iff-Edge_example = is_legal_iff-Edge LifecycleState.intake Event.hold LifecycleState.held

advance_use_case-Rests_example :
    Succeeds
      (advance_use_case (use_case_in LifecycleState.requested) 2)
      (half_cleared LifecycleState.requested)
      (Rests (use_case_in LifecycleState.requested) (half_cleared LifecycleState.requested))
unfolding classification_readiness
advance_use_case-Rests_example =
    advance_use_case-Rests (use_case_in LifecycleState.requested) 2
      (half_cleared LifecycleState.requested) refl refl

advance_use_case-halts_example :
    Succeeds
      (advance_use_case (use_case_in LifecycleState.intake) 2)
      (forbidden LifecycleState.intake)
      (Moved
        (use_case_in LifecycleState.intake)
        (forbidden LifecycleState.intake)
        LifecycleState.halted_prohibited)
unfolding classification_readiness
advance_use_case-halts_example =
    advance_use_case-halts (use_case_in LifecycleState.intake) 2 (forbidden LifecycleState.intake)
      refl refl refl

advance_use_case-target_example :
    Succeeds
      (advance_use_case (use_case_in LifecycleState.requested) 2)
      (half_cleared LifecycleState.requested)
      (Moved
        (use_case_in LifecycleState.requested)
        (half_cleared LifecycleState.requested)
        (target (use_case_in LifecycleState.requested) (half_cleared LifecycleState.requested)).0)
unfolding classification_readiness full_vector target_from_vector
advance_use_case-target_example =
    advance_use_case-target (use_case_in LifecycleState.requested) 2
      (half_cleared LifecycleState.requested) refl refl (omega arith)

-- A use case that has not been moved yet is in a sound session.
new-IsSound : IsSound (half_cleared LifecycleState.requested)
new-IsSound = record { keyed = (tt, tt); traced = (refl, tt); hinted = (refl, tt) }

apply_transition-IsSound_example :
    IsSound
      (apply_transition
        (use_case_in LifecycleState.requested)
        Event.created
        LifecycleState.vendor_check
        2
        none
        none
        (half_cleared LifecycleState.requested)).1
apply_transition-IsSound_example =
    apply_transition-IsSound (use_case_in LifecycleState.requested) Event.created
      LifecycleState.vendor_check 2 none none (half_cleared LifecycleState.requested) new-IsSound

re_evaluate-settled_example :
    Succeeds (re_evaluate (use_case_in LifecycleState.held) 2) (half_cleared LifecycleState.held) (
      Moved
        (use_case_in LifecycleState.held)
        (half_cleared LifecycleState.held)
        (settled_state (use_case_in LifecycleState.held) (half_cleared LifecycleState.held)))
re_evaluate-settled_example =
    re_evaluate-settled (use_case_in LifecycleState.held) 2 (half_cleared LifecycleState.held) refl
      refl

re_evaluate_twice-settles_example :
    Succeeds
      (re_evaluate_twice (use_case_in LifecycleState.intake) 2)
      (uncleared LifecycleState.intake)
      (λ v db. re_evaluate v 2 db ≡ (ok v, db))
re_evaluate_twice-settles_example =
    re_evaluate_twice-settles (use_case_in LifecycleState.intake) 2
      (uncleared LifecycleState.intake) refl refl

re_evaluate-regress_and_restore_example :
    Succeeds
      (re_evaluate (use_case_in LifecycleState.intake) 2)
      (uncleared LifecycleState.intake)
      (λ v db.
        (v.state ≡ LifecycleState.held)
        × Succeeds (re_evaluate v 2) db (λ w _.
          w.state
          ≡ (target (use_case_in LifecycleState.intake) (uncleared LifecycleState.intake)).0))
unfolding classification_readiness full_vector target_from_vector vendor_gate
re_evaluate-regress_and_restore_example =
    re_evaluate-regress_and_restore (use_case_in LifecycleState.intake) 2
      (uncleared LifecycleState.intake) refl refl refl (omega arith)
