-- ===== src/Lifecycle/ReEvaluate.antt =====
-- `full_vector`, `_target_from_vector` and `re_evaluate` of app/services/lifecycle_service.py.
use aigov.Gates.Authorisation.{authorisation_gate}
use aigov.Gates.Clearance.{product_gate, vendor_gate}
use aigov.Gates.Readiness.{classification_readiness}
use aigov.Gates.Structure.{assessment_gate}
use aigov.Gates.Treatment.{treatment_gate}
use aigov.Gates.Verdict.{GateResult, Verdict, verdict_eq}
use aigov.Lifecycle.Advance.{advance_use_case, entry_of, halt_use_case, must_halt}
use aigov.Lifecycle.Legality.{Event, is_terminal}
use aigov.Lifecycle.Transition.{apply_transition}
use aigov.Model.Enums.Lifecycle.{LifecycleState, lifecycle_state_eq}
use aigov.Model.Rows.Domain.{UseCase}
use aigov.Model.Session.{Session}
use aigov.Prelude.{
  Exec, List, Message, Option, [], if◌then◌else◌, lift, lit, ltb, none, not, ok, pure, some, ℕ,
  ◌==◌, ◌>>=◌, ◌∷◌,
}

-- `_RANK.get(state)`
abbrev pub rank : LifecycleState → Option ℕ
rank LifecycleState.requested = some 0
rank LifecycleState.vendor_check = some 1
rank LifecycleState.product_check = some 2
rank LifecycleState.intake = some 3
rank LifecycleState.under_assessment = some 4
rank LifecycleState.treatment_pending = some 5
rank LifecycleState.pending_authorisation = some 6
rank LifecycleState.authorised = some 7
rank _ = none

unfoldable pub full_vector : UseCase → Session → List (LifecycleState × GateResult)
full_vector use_case db =
    (LifecycleState.vendor_check, vendor_gate use_case db)
    ∷ (LifecycleState.product_check, product_gate use_case db)
    ∷ (LifecycleState.intake, classification_readiness use_case db)
    ∷ (LifecycleState.under_assessment, assessment_gate use_case db)
    ∷ (LifecycleState.treatment_pending, treatment_gate use_case db)
    ∷ (LifecycleState.pending_authorisation, authorisation_gate use_case db)
    ∷ []

unfoldable pub target_from_vector :
    List (LifecycleState × GateResult) → LifecycleState × Option GateResult
target_from_vector [] = (LifecycleState.pending_authorisation, none)
target_from_vector ((state, result) ∷ rest) =
    if not (result.verdict == Verdict.advance)
    then (state, some result)
    else target_from_vector rest

-- `blocking.reason if blocking else default`
abbrev pub reason_or : Option GateResult → Message → Message
reason_or none default = default
reason_or (some result) default = result.reason

unfoldable pub hold_use_case : UseCase → ℕ → Message → Exec Session UseCase
hold_use_case use_case actor reason =
    apply_transition use_case Event.hold LifecycleState.held actor (some reason) (some reason)

-- The branch of an authorised use case.
unfoldable pub recheck_authorised : UseCase → ℕ → Option GateResult → Exec Session UseCase
unfolding hold_use_case
recheck_authorised use_case actor none = pure use_case
recheck_authorised use_case actor (some blocking) = hold_use_case use_case actor blocking.reason

-- The comparison of ranks: forward hop by hop, backward to HELD, or nothing.
unfoldable pub move_by_rank :
    UseCase → ℕ → LifecycleState × Option GateResult → Exec Session UseCase
unfolding hold_use_case advance_use_case
move_by_rank use_case actor (target_state, blocking) = do
  current_rank ← lift (entry_of (rank use_case.state))
  target_rank ← lift (entry_of (rank target_state))
  if ltb current_rank target_rank
      then advance_use_case use_case actor
      else if ltb target_rank current_rank
      then hold_use_case use_case actor
          (reason_or blocking (lit "An upstream gate is no longer satisfied" ∷ []))
      else pure use_case

unfoldable pub move_to_target :
    UseCase → ℕ → LifecycleState × Option GateResult → Exec Session UseCase
unfolding recheck_authorised move_by_rank
move_to_target use_case actor (target_state, blocking) =
    if use_case.state == LifecycleState.held
    then apply_transition use_case Event.restore target_state actor
        (some (reason_or blocking (lit "All upstream gates satisfied" ∷ []))) none
    else if use_case.state == LifecycleState.authorised
    then recheck_authorised use_case actor blocking
    else move_by_rank use_case actor (target_state, blocking)

unfoldable pub re_evaluate : UseCase → ℕ → Exec Session UseCase
unfolding move_to_target halt_use_case
re_evaluate use_case actor db =
    if is_terminal use_case.state
    then (ok use_case, db)
    else if must_halt use_case db
    then halt_use_case use_case actor (classification_readiness use_case db).reason db
    else move_to_target use_case actor (target_from_vector (full_vector use_case db)) db
