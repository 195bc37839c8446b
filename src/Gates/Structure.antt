-- ===== src/Gates/Structure.antt =====
-- `structural_assessment_readiness`, `assessment_approved` and `assessment_gate` of
-- app/services/lifecycle_gates.py.
use aigov.Gates.Feeders.{FeederRecommendation, feeder_recommendations_for}
use aigov.Gates.Verdict.{GateResult, ResponsibleParty, Verdict, verdict_eq}
use aigov.Model.Enums.Assessment.{
  AssessmentStatus, AssessmentType, ProvenanceConfidence, SectionApplicability,
  assessment_status_eq, assessment_type_eq, assessment_type_value, provenance_confidence_eq,
  section_applicability_eq,
}
use aigov.Model.Rows.Assessment.{Assessment, AssessmentItem}
use aigov.Model.Rows.Domain.{UseCase}
use aigov.Model.Session.{Session}
use aigov.Prelude.{
  Bool, List, Message, Option, [], any_row, false, find?, if◌then◌else◌, is_none, lit, nat_eq, none,
  not, some, where_rows, ◌&&◌, ◌==◌, ◌∷◌,
}

-- The AIIA of a use case: its assessment of that type that has no parent.
abbrev pub current_aiia : UseCase → Session → Option Assessment
current_aiia use_case db =
    find?
      (λ row.
        row.use_case_id == use_case.id
        && row.tenant_id == use_case.tenant_id
        && row.type == AssessmentType.aiia
        && is_none row.parent_aiia_id)
      db.assessments

-- The use case's assessments, feeders included, hold the item: the `join` of the item queries.
abbrev pub belongs_to : UseCase → Session → AssessmentItem → Bool
belongs_to use_case db item =
    any_row
      (λ a.
        a.id == item.assessment_id
        && a.use_case_id == use_case.id
        && a.tenant_id == use_case.tenant_id)
      db.assessments

-- `r.applicability == REQUIRED and not r.exists`
abbrev pub is_missing : FeederRecommendation → Bool
is_missing r = r.applicability == SectionApplicability.required && not r.exists

-- `", ".join(r.type.value for r in missing)`
abbrev pub join_names : List FeederRecommendation → Message
join_names [] = []
join_names (r ∷ []) = lit (assessment_type_value r.type) ∷ []
join_names (r ∷ rest) = lit (assessment_type_value r.type) ∷ lit ", " ∷ join_names rest

-- An item that nobody has confirmed or amended.
abbrev pub is_undispositioned : UseCase → Session → AssessmentItem → Bool
is_undispositioned use_case db item =
    belongs_to use_case db item && item.provenance == ProvenanceConfidence.ai_suggested

-- What follows in the check once the AIIA and its missing feeders are known.
unfoldable pub structure_verdict : UseCase → Session → List FeederRecommendation → GateResult
structure_verdict use_case db (r ∷ rest) = record {
  verdict = Verdict.park;
  reason_code = lit "required_feeder_missing" ∷ [];
  reason = lit "Required feeder(s) missing: " ∷ join_names (r ∷ rest);
  responsible_party = ResponsibleParty.user;
}
structure_verdict use_case db [] =
    if any_row (is_undispositioned use_case db) db.items
    then record {
      verdict = Verdict.park;
      reason_code = lit "undispositioned_proposed_risk" ∷ [];
      reason = lit "A proposed risk has not been confirmed or amended" ∷ [];
      responsible_party = ResponsibleParty.user;
    }
    else record {
      verdict = Verdict.advance;
      reason_code = lit "assessment_structurally_complete" ∷ [];
      reason = lit "Required assessment structure complete" ∷ [];
      responsible_party = ResponsibleParty.system;
    }

unfoldable pub structure_from : UseCase → Session → Option Assessment → GateResult
unfolding structure_verdict
structure_from use_case db none = record {
  verdict = Verdict.park;
  reason_code = lit "no_aiia" ∷ [];
  reason = lit "No assessment started for this use case" ∷ [];
  responsible_party = ResponsibleParty.user;
}
structure_from use_case db (some a) =
    structure_verdict use_case db (where_rows is_missing (feeder_recommendations_for a db))

unfoldable pub structural_assessment_readiness : UseCase → Session → GateResult
unfolding structure_from
structural_assessment_readiness use_case db = structure_from use_case db (current_aiia use_case db)

-- `aiia is None or aiia.status != APPROVED`, the other way round.
abbrev pub has_approval : Option Assessment → Bool
has_approval none = false
has_approval (some a) = a.status == AssessmentStatus.approved

unfoldable pub assessment_approved : UseCase → Session → GateResult
assessment_approved use_case db =
    if has_approval (current_aiia use_case db)
    then record {
      verdict = Verdict.advance;
      reason_code = lit "assessment_approved" ∷ [];
      reason = lit "AIIA reviewed and approved" ∷ [];
      responsible_party = ResponsibleParty.system;
    }
    else record {
      verdict = Verdict.park;
      reason_code = lit "assessment_not_approved" ∷ [];
      reason = lit "AIIA has not been reviewed and approved" ∷ [];
      responsible_party = ResponsibleParty.reviewer;
    }

abbrev pub advances : GateResult → Bool
advances result = result.verdict == Verdict.advance

unfoldable pub assessment_gate : UseCase → Session → GateResult
assessment_gate use_case db =
    if advances (structural_assessment_readiness use_case db)
    then assessment_approved use_case db
    else structural_assessment_readiness use_case db
