-- ===== src/Lifecycle/Legality.antt =====
-- The legality tables of app/services/lifecycle_service.py, and `_is_legal`.
use aigov.Model.Enums.Lifecycle.{LifecycleState, lifecycle_state_eq}
use aigov.Prelude.{
  Bool, Eq, List, Option, String, [], any_row, arith, enum_eq, holds, none, not, some, ℕ, ◌&&◌,
  ◌==◌, ◌∷◌, ◌≡◌,
}

-- The events that callers of `apply_transition` pass as text.
pub data Event : Type 0 where
  created advance hold restore halt authorise : Event

abbrev pub event_code : Event → ℕ
event_code created = 0
event_code advance = 1
event_code hold = 2
event_code restore = 3
event_code halt = 4
event_code authorise = 5

pub event_code-injective : (a b : Event) → event_code a ≡ event_code b → a ≡ b
event_code-injective a b h = ground arith

instance abbrev pub event_eq : Eq Event
event_eq = enum_eq event_code event_code-injective

abbrev pub event_value : Event → String
event_value created = "created"
event_value advance = "advance"
event_value hold = "hold"
event_value restore = "restore"
event_value halt = "halt"
event_value authorise = "authorise"

-- `_ADVANCE_TABLE.get(state)`
abbrev pub advance_table : LifecycleState → Option LifecycleState
advance_table LifecycleState.requested = some LifecycleState.vendor_check
advance_table LifecycleState.vendor_check = some LifecycleState.product_check
advance_table LifecycleState.product_check = some LifecycleState.intake
advance_table LifecycleState.intake = some LifecycleState.under_assessment
advance_table LifecycleState.under_assessment = some LifecycleState.treatment_pending
advance_table LifecycleState.treatment_pending = some LifecycleState.pending_authorisation
advance_table _ = none

-- `_ADVANCED_STATES`: the values of the table, and AUTHORISED.
abbrev pub advanced_states : List LifecycleState
advanced_states =
    LifecycleState.vendor_check ∷ LifecycleState.product_check ∷ LifecycleState.intake
    ∷ LifecycleState.under_assessment ∷ LifecycleState.treatment_pending
    ∷ LifecycleState.pending_authorisation ∷ LifecycleState.authorised ∷ []

abbrev pub is_advanced : LifecycleState → Bool
is_advanced s = any_row (λ t. t == s) advanced_states

-- `state in _TERMINAL_STATES`
abbrev pub is_terminal : LifecycleState → Bool
is_terminal s = s == LifecycleState.halted_prohibited

abbrev pub audit_action_by_event : Event → String
audit_action_by_event created = "lifecycle.advanced"
audit_action_by_event advance = "lifecycle.advanced"
audit_action_by_event restore = "lifecycle.advanced"
audit_action_by_event hold = "lifecycle.held"
audit_action_by_event halt = "lifecycle.halted_prohibited"
audit_action_by_event authorise = "lifecycle.authorised"

unfoldable pub is_legal : LifecycleState → Event → LifecycleState → Bool
is_legal from_state created to_state = holds (advance_table from_state) to_state
is_legal from_state advance to_state = holds (advance_table from_state) to_state
is_legal from_state halt to_state =
    to_state == LifecycleState.halted_prohibited && not (is_terminal from_state)
is_legal from_state hold to_state = to_state == LifecycleState.held && is_advanced from_state
is_legal from_state restore to_state = from_state == LifecycleState.held && is_advanced to_state
is_legal from_state authorise to_state =
    from_state == LifecycleState.pending_authorisation && to_state == LifecycleState.authorised
