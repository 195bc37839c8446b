-- ===== src/Lifecycle/Transition.antt =====
-- `apply_transition` of app/services/lifecycle_service.py.
use aigov.Lifecycle.Legality.{Event, audit_action_by_event, event_eq, event_value, is_legal}
use aigov.Model.Enums.Lifecycle.{LifecycleState, lifecycle_state_eq}
use aigov.Model.Rows.Domain.{UseCase}
use aigov.Model.Rows.Lifecycle.{AuditEvent, Detail, LifecycleTransition}
use aigov.Model.Session.{Session}
use aigov.Prelude.{
  Bool, Error, Exec, Message, Option, String, [], any_row, err, http, if◌then◌else◌, lit, nat_eq,
  none, not, ok, some, update_rows, value_error, ℕ, ◌&&◌, ◌++◌, ◌+◌, ◌==◌, ◌∷◌,
}

-- `state.name`
abbrev pub lifecycle_state_name : LifecycleState → String
lifecycle_state_name LifecycleState.requested = "REQUESTED"
lifecycle_state_name LifecycleState.vendor_check = "VENDOR_CHECK"
lifecycle_state_name LifecycleState.product_check = "PRODUCT_CHECK"
lifecycle_state_name LifecycleState.intake = "INTAKE"
lifecycle_state_name LifecycleState.halted_prohibited = "HALTED_PROHIBITED"
lifecycle_state_name LifecycleState.under_assessment = "UNDER_ASSESSMENT"
lifecycle_state_name LifecycleState.treatment_pending = "TREATMENT_PENDING"
lifecycle_state_name LifecycleState.pending_authorisation = "PENDING_AUTHORISATION"
lifecycle_state_name LifecycleState.authorised = "AUTHORISED"
lifecycle_state_name LifecycleState.deployed = "DEPLOYED"
lifecycle_state_name LifecycleState.held = "HELD"
lifecycle_state_name LifecycleState.retired = "RETIRED"

-- The `values` of the UPDATE, applied to a row: the new state, and the hint of a held use case set
-- by a hold and cleared on leaving HELD.
unfoldable pub set_values :
    LifecycleState → Event → LifecycleState → Option Message → UseCase → UseCase
set_values from_state event to_state reason row =
    if event == Event.hold
    then record row { state = to_state; held_from_state = some from_state; held_reason = reason }
    else if from_state == LifecycleState.held
    then record row { state = to_state; held_from_state = none; held_reason = none }
    else record row { state = to_state }

-- The condition of the UPDATE: the row is still in the state that was read.
abbrev pub row_matches : UseCase → UseCase → Bool
row_matches use_case row =
    row.id == use_case.id && row.tenant_id == use_case.tenant_id && row.state == use_case.state

abbrev pub transition_row :
    Session → UseCase → LifecycleState → ℕ → Option Message → LifecycleTransition
transition_row db use_case to_state actor_user_id reason = record {
  id = db.uuids db.drawn;
  tenant_id = use_case.tenant_id;
  use_case_id = use_case.id;
  from_state = use_case.state;
  to_state = to_state;
  actor_user_id = actor_user_id;
  reason = reason;
}

abbrev pub transition_event : Session → UseCase → Event → LifecycleState → ℕ → AuditEvent
transition_event db use_case event to_state actor_user_id = record {
  id = db.uuids (db.drawn + 1);
  tenant_id = use_case.tenant_id;
  actor_user_id = actor_user_id;
  action = audit_action_by_event event;
  entity_type = "use_case";
  entity_id = use_case.id;
  detail =
      ("from_state", Detail.text (lifecycle_state_name use_case.state))
      ∷ ("to_state", Detail.text (lifecycle_state_name to_state))
      ∷ ("event", Detail.text (event_value event))
      ∷ [];
}

abbrev pub concurrent_change : Error
concurrent_change =
    http 409 (lit "Use case lifecycle state changed concurrently; reload and retry" ∷ [])

-- The session after the UPDATE and the two inserts.
unfoldable pub commit_transition :
    UseCase → Event → LifecycleState → ℕ → Option Message → Option Message → Session → Session
unfolding set_values
commit_transition use_case event to_state actor_user_id reason held_reason db = record db {
  use_cases =
      update_rows (row_matches use_case) (set_values use_case.state event to_state held_reason)
        db.use_cases;
  transitions = db.transitions ++ transition_row db use_case to_state actor_user_id reason ∷ [];
  audit_events = db.audit_events ++ transition_event db use_case event to_state actor_user_id ∷ [];
  drawn = db.drawn + 2;
}

-- `rowcount == 0` is the failure of `any_row`.
unfoldable pub apply_transition :
    UseCase → Event → LifecycleState → ℕ → Option Message → Option Message → Exec Session UseCase
unfolding is_legal commit_transition
apply_transition use_case event to_state actor_user_id reason held_reason db =
    if not (is_legal use_case.state event to_state)
    then (err value_error, db)
    else if not (any_row (row_matches use_case) db.use_cases)
    then (err concurrent_change, db)
    else (
      ok (set_values use_case.state event to_state held_reason use_case),
      commit_transition use_case event to_state actor_user_id reason held_reason db,
    )
