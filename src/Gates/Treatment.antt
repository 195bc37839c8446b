-- ===== src/Gates/Treatment.antt =====
-- `treatment_gate` of app/services/lifecycle_gates.py.
use Prim.Native.Char.{code}
use aigov.Gates.Structure.{belongs_to}
use aigov.Gates.Verdict.{GateResult, ResponsibleParty, Verdict}
use aigov.Model.Enums.Assessment.{ProvenanceConfidence, TreatmentDecision, provenance_confidence_eq}
use aigov.Model.Rows.Assessment.{AssessmentItem}
use aigov.Model.Rows.Domain.{UseCase}
use aigov.Model.Session.{Session}
use aigov.Prelude.{
  Bool, List, Option, String, [], any_row, if◌then◌else◌, is_some, leb, lit, nat_eq, none, not,
  some, true, uid, where_rows, ℕ, ◌&&◌, ◌==◌, ◌||◌, ◌∷◌,
}

-- The characters that `str.strip()` removes.
unfoldable pub is_space : ℕ → Bool
is_space c =
    (leb 9 c && leb c 13)
    || (leb 28 c && leb c 32)
    || c == 133
    || c == 160
    || c == 5760
    || (leb 8192 c && leb c 8202)
    || c == 8232
    || c == 8233
    || c == 8239
    || c == 8287
    || c == 12288

-- `not s.strip()`
unfoldable pub is_blank : String → Bool
unfolding is_space
is_blank String.[] = true
is_blank (String.◌∷◌ c s) = is_space (code c) && is_blank s

-- `not (s or "").strip()`
abbrev pub is_blank_or_none : Option String → Bool
is_blank_or_none none = true
is_blank_or_none (some s) = is_blank s

-- The items whose treatment is asked for: risks that a user has confirmed or amended.
abbrev pub is_dispositioned : ProvenanceConfidence → Bool
is_dispositioned p =
    p == ProvenanceConfidence.user_confirmed || p == ProvenanceConfidence.user_amended

abbrev pub needs_treatment : UseCase → Session → AssessmentItem → Bool
needs_treatment use_case db item =
    belongs_to use_case db item && is_some item.risk_id && is_dispositioned item.provenance

abbrev pub has_control_link : Session → AssessmentItem → Bool
has_control_link db item = any_row (λ link. link.item_id == item.id) db.item_controls

-- The body of the loop: the verdict that it returns for an item, if it returns one.
unfoldable pub treatment_fault :
    Session → AssessmentItem → Option TreatmentDecision → Option GateResult
treatment_fault db item none = some (record {
  verdict = Verdict.park;
  reason_code = lit "treatment_decision_missing" ∷ [];
  reason = lit "Risk item " ∷ uid item.id ∷ lit " has no treatment decision" ∷ [];
  responsible_party = ResponsibleParty.user;
})
treatment_fault db item (some TreatmentDecision.mitigate) =
    if not (has_control_link db item) && is_blank_or_none item.mitigation_plan
    then some (record {
      verdict = Verdict.park;
      reason_code = lit "mitigation_unsubstantiated" ∷ [];
      reason =
          lit "Risk item "
          ∷ uid item.id
          ∷ lit ": MITIGATE needs a control link or a mitigation plan"
          ∷ [];
      responsible_party = ResponsibleParty.user;
    })
    else none
treatment_fault db item (some TreatmentDecision.accept) =
    if is_blank_or_none item.treatment_rationale
    then some (record {
      verdict = Verdict.park;
      reason_code = lit "acceptance_unjustified" ∷ [];
      reason = lit "Risk item " ∷ uid item.id ∷ lit ": ACCEPT needs a treatment rationale" ∷ [];
      responsible_party = ResponsibleParty.user;
    })
    else none
treatment_fault db item (some d) = none

abbrev pub treatment_complete : GateResult
treatment_complete = record {
  verdict = Verdict.advance;
  reason_code = lit "treatment_complete" ∷ [];
  reason = lit "Every dispositioned risk has a substantiated treatment decision" ∷ [];
  responsible_party = ResponsibleParty.system;
}

-- The loop returns at the first fault.
abbrev pub fault_or : Option GateResult → GateResult → GateResult
fault_or none rest = rest
fault_or (some fault) rest = fault

unfoldable pub treatment_loop : Session → List AssessmentItem → GateResult
unfolding treatment_fault
treatment_loop db [] = treatment_complete
treatment_loop db (item ∷ rest) =
    fault_or (treatment_fault db item item.treatment_decision) (treatment_loop db rest)

unfoldable pub treatment_gate : UseCase → Session → GateResult
unfolding treatment_loop
treatment_gate use_case db = treatment_loop db (where_rows (needs_treatment use_case db) db.items)
