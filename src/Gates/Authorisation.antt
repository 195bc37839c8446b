-- ===== src/Gates/Authorisation.antt =====
-- `authorisation_gate` of app/services/lifecycle_gates.py.
use aigov.Gates.Structure.{advances, assessment_approved, current_aiia}
use aigov.Gates.Verdict.{GateResult, ResponsibleParty, Verdict}
use aigov.Model.Rows.Assessment.{Assessment}
use aigov.Model.Rows.Domain.{UseCase}
use aigov.Model.Rows.Lifecycle.{DeploymentAuthorisation}
use aigov.Model.Session.{Session}
use aigov.Prelude.{
  Bool, Option, [], any_row, if◌then◌else◌, lit, nat_eq, none, some, ℕ, ◌&&◌, ◌==◌, ◌∷◌,
}

-- An authorisation of the use case for a submission round.
abbrev pub authorises : UseCase → ℕ → DeploymentAuthorisation → Bool
authorises use_case round row =
    row.use_case_id == use_case.id
    && row.tenant_id == use_case.tenant_id
    && row.submission_round == round

abbrev pub authorised_for_current_cycle : GateResult
authorised_for_current_cycle = record {
  verdict = Verdict.advance;
  reason_code = lit "authorised_for_current_cycle" ∷ [];
  reason = lit "Deployment authorisation granted for the current submission cycle" ∷ [];
  responsible_party = ResponsibleParty.system;
}

abbrev pub no_current_authorisation : GateResult
no_current_authorisation = record {
  verdict = Verdict.park;
  reason_code = lit "no_current_authorisation" ∷ [];
  reason = lit "No deployment authorisation for the current submission cycle" ∷ [];
  responsible_party = ResponsibleParty.authoriser;
}

-- The first case is not met: `assessment_approved` advances only where there is an AIIA.
unfoldable pub cycle_verdict : UseCase → Session → Option Assessment → GateResult
cycle_verdict use_case db none = no_current_authorisation
cycle_verdict use_case db (some a) =
    if any_row (authorises use_case a.submission_round) db.authorisations
    then authorised_for_current_cycle
    else no_current_authorisation

unfoldable pub authorisation_gate : UseCase → Session → GateResult
unfolding cycle_verdict
authorisation_gate use_case db =
    if advances (assessment_approved use_case db)
    then cycle_verdict use_case db (current_aiia use_case db)
    else assessment_approved use_case db
