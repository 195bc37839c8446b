-- ===== src/Examples/Approvals.antt =====
-- Clearances of the small tenant (app/services/lifecycle_service.py).
use aigov.Approvals.{ApprovalDecision, fan_out, set_vendor_approval}
use aigov.Approvals.Cleared.{clears, set_vendor_approval-vendor_gate}
use aigov.Approvals.FanOut.{Worked, fan_out-Worked}
use aigov.Examples.World.{chat_system, half_cleared, uncleared, use_case_in}
use aigov.Gates.Clearance.{vendor_gate}
use aigov.Gates.Structure.{advances}
use aigov.Lifecycle.Arrival.{Succeeds}
use aigov.Model.Enums.Lifecycle.{ApprovalStatus, LifecycleState}
use aigov.Prelude.{[], none, refl, some, ◌∷◌, ◌≡◌}

abbrev approving : ApprovalDecision
approving = record {
  approval_status = ApprovalStatus.approved;
  valid_until = some 400;
  remark = none;
  actor_user_id = 3;
}

set_vendor_approval-vendor_gate_example :
    advances (
      vendor_gate
        (use_case_in LifecycleState.vendor_check)
        (set_vendor_approval 1 10 approving (uncleared LifecycleState.vendor_check)).1)
    ≡ clears approving 100
set_vendor_approval-vendor_gate_example =
    set_vendor_approval-vendor_gate 1 10 approving (uncleared LifecycleState.vendor_check)
      (use_case_in LifecycleState.vendor_check) chat_system tt refl refl refl

fan_out-Worked_example :
    Succeeds
      (fan_out (7 ∷ 8 ∷ []) 3)
      (half_cleared LifecycleState.vendor_check)
      (λ _ db'. Worked (7 ∷ 8 ∷ []) (half_cleared LifecycleState.vendor_check) db')
fan_out-Worked_example =
    fan_out-Worked (7 ∷ 8 ∷ []) 3 (half_cleared LifecycleState.vendor_check) (refl, tt)
