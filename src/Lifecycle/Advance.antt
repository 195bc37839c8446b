-- ===== src/Lifecycle/Advance.antt =====
-- `_gate_for_state` and `advance_use_case` of app/services/lifecycle_service.py.
use aigov.Gates.Clearance.{product_gate, vendor_gate}
use aigov.Gates.Readiness.{classification_readiness}
use aigov.Gates.Structure.{assessment_gate}
use aigov.Gates.Treatment.{treatment_gate}
use aigov.Gates.Verdict.{GateResult, ResponsibleParty, Verdict, verdict_eq}
use aigov.Lifecycle.Legality.{Event, advance_table, is_terminal}
use aigov.Lifecycle.Transition.{apply_transition}
use aigov.Model.Enums.Lifecycle.{LifecycleState, lifecycle_state_eq}
use aigov.Model.Rows.Domain.{UseCase}
use aigov.Model.Session.{Session}
use aigov.Prelude.{
  Bool, Exec, Message, Option, Result, [], err, if◌then◌else◌, key_error, lift, lit, none, not, ok,
  out_of_fuel, pure, some, suc, zero, ℕ, ◌&&◌, ◌==◌, ◌>>=◌, ◌∷◌,
}

-- `_GATE_FNS.get(state)`, applied.
unfoldable pub gate_fns : LifecycleState → Option (UseCase → Session → GateResult)
gate_fns LifecycleState.vendor_check = some vendor_gate
gate_fns LifecycleState.product_check = some product_gate
gate_fns LifecycleState.intake = some classification_readiness
gate_fns LifecycleState.under_assessment = some assessment_gate
gate_fns LifecycleState.treatment_pending = some treatment_gate
gate_fns _ = none

abbrev pub use_case_created : GateResult
use_case_created = record {
  verdict = Verdict.advance;
  reason_code = lit "use_case_created" ∷ [];
  reason = lit "Use case created" ∷ [];
  responsible_party = ResponsibleParty.system;
}

abbrev pub run_gate :
    Option (UseCase → Session → GateResult) → UseCase → Session → Option GateResult
run_gate none use_case db = none
run_gate (some fn) use_case db = some (fn use_case db)

unfoldable pub gate_for_state : LifecycleState → UseCase → Session → Option GateResult
unfolding gate_fns
gate_for_state state use_case db =
    if state == LifecycleState.requested
    then some use_case_created
    else run_gate (gate_fns state) use_case db

-- "created" from REQUESTED, "advance" from every other state.
abbrev pub advance_event : LifecycleState → Event
advance_event state = if state == LifecycleState.requested then Event.created else Event.advance

-- `table[key]`, which raises where there is no entry.
abbrev pub entry_of {ℓ} : {A : Type ℓ} → Option A → Result A
entry_of none = err key_error
entry_of (some a) = ok a

-- The test at the head of the loop: the gate, if the loop goes on.
abbrev pub open_gate : Option GateResult → Option GateResult
open_gate none = none
open_gate (some gate) = if gate.verdict == Verdict.advance then some gate else none

-- The body of the loop, past its test.
unfoldable pub advance_hop : UseCase → ℕ → GateResult → Exec Session UseCase
advance_hop use_case actor gate = do
  to_state ← lift (entry_of (advance_table use_case.state))
  apply_transition use_case (advance_event use_case.state) to_state actor (some gate.reason) none

-- `break`, or the body of the loop with the gate that was passed.
abbrev pub break_or :
    Option GateResult → (GateResult → Exec Session UseCase) → UseCase → Exec Session UseCase
break_or none body use_case = pure use_case
break_or (some gate) body use_case = body gate

-- `while True`, one round for each unit of fuel.
unfoldable pub advance_loop : ℕ → UseCase → ℕ → Exec Session UseCase
unfolding advance_hop
advance_loop zero use_case actor db = (err out_of_fuel, db)
advance_loop (suc fuel) use_case actor db =
    break_or (open_gate (gate_for_state use_case.state use_case db))
      (λ gate. do moved ← advance_hop use_case actor gate; advance_loop fuel moved actor) use_case
      db

-- Seven rounds: six hops lead from REQUESTED to PENDING_AUTHORISATION, and one finds it closed.
abbrev pub advance_fuel : ℕ
advance_fuel = 7

-- Step 0 of `advance_use_case` and of `re_evaluate`: a prohibited practice halts the use case.
unfoldable pub halt_use_case : UseCase → ℕ → Message → Exec Session UseCase
halt_use_case use_case actor reason =
    apply_transition use_case Event.halt LifecycleState.halted_prohibited actor (some reason) none

abbrev pub must_halt : UseCase → Session → Bool
must_halt use_case db = (classification_readiness use_case db).verdict == Verdict.halt

unfoldable pub advance_use_case : UseCase → ℕ → Exec Session UseCase
unfolding halt_use_case
advance_use_case use_case actor db =
    if not (is_terminal use_case.state) && must_halt use_case db
    then halt_use_case use_case actor (classification_readiness use_case db).reason db
    else advance_loop advance_fuel use_case actor db
