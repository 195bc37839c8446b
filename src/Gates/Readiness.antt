-- ===== src/Gates/Readiness.antt =====
-- `classification_readiness` of app/services/lifecycle_gates.py.
use aigov.Gates.Verdict.{GateResult, ResponsibleParty, Verdict, halt, park, reviewer}
use aigov.Model.Enums.Lifecycle.{
  ClassificationStatus, EuAiActTier, classification_status_eq, eu_ai_act_tier_eq,
  eu_ai_act_tier_value,
}
use aigov.Model.Rows.Assessment.{Classification}
use aigov.Model.Rows.Domain.{UseCase}
use aigov.Model.Session.{Session}
use aigov.Prelude.{
  Bool, Option, [], find?, if◌then◌else◌, lit, nat_eq, none, some, ◌&&◌, ◌==◌, ◌||◌, ◌∷◌,
}

-- The current snapshot of a use case.
abbrev pub current_snapshot : UseCase → Session → Option Classification
current_snapshot use_case db =
    find? (λ row. row.use_case_id == use_case.id && row.is_current) db.classifications

-- `use_case.eu_tier in (REQUIRES_CONTEXT, UNCLASSIFIED)`
abbrev pub is_unratified : EuAiActTier → Bool
is_unratified tier = tier == EuAiActTier.requires_context || tier == EuAiActTier.unclassified

unfoldable pub snapshot_verdict : UseCase → Option Classification → GateResult
snapshot_verdict use_case none = record {
  verdict = park;
  reason_code = lit "no_classification_snapshot" ∷ [];
  reason = lit "No current classification snapshot" ∷ [];
  responsible_party = ResponsibleParty.user;
}
snapshot_verdict use_case (some snapshot) =
    if snapshot.tier == EuAiActTier.prohibited
    then record {
      verdict = halt;
      reason_code = lit "prohibited_practice" ∷ [];
      reason = lit "Current classification snapshot resolves PROHIBITED" ∷ [];
      responsible_party = ResponsibleParty.system;
    }
    else if is_unratified use_case.eu_tier
    then record {
      verdict = park;
      reason_code = lit "tier_not_ratified" ∷ [];
      reason = lit "Classification tier not yet ratified (eu_tier pending)" ∷ [];
      responsible_party =
          if snapshot.status == ClassificationStatus.pending_review
          then reviewer
          else ResponsibleParty.user;
    }
    else record {
      verdict = Verdict.advance;
      reason_code = lit "tier_ratified" ∷ [];
      reason =
          lit "Classification tier ratified as " ∷ lit (eu_ai_act_tier_value use_case.eu_tier) ∷ [];
      responsible_party = ResponsibleParty.system;
    }

unfoldable pub classification_readiness : UseCase → Session → GateResult
unfolding snapshot_verdict
classification_readiness use_case db = snapshot_verdict use_case (current_snapshot use_case db)
