-- ===== src/Examples/Coverage.antt =====
-- Coverage of the small tenant's AIIA (app/services/coverage_service.py).
use aigov.Coverage.Ladder.{verdict_rank}
use aigov.Coverage.Links.{ScopeClause, resolve_scope_clause}
use aigov.Coverage.Matrix.{CoverageMatrix, compute_coverage, coverage_matrix, links_in_play}
use aigov.Coverage.Partition.{IsPlaced, coverage_matrix-IsPlaced}
use aigov.Coverage.Rollup.{Answers, compute_coverage-Answers}
use aigov.Coverage.Strictness.{counts_as, links_in_play-le, verdict_on}
use aigov.Examples.Items.{risk_item}
use aigov.Examples.World.{cleared}
use aigov.Model.Enums.Assessment.{ProvenanceConfidence}
use aigov.Model.Enums.Knowledge.{CoverageStatus, Framework, coverage_status_eq}
use aigov.Model.Enums.Lifecycle.{LifecycleState}
use aigov.Model.Rows.Assessment.{AssessmentItem, AssessmentItemControl}
use aigov.Model.Rows.Knowledge.{Control}
use aigov.Model.Session.{Session}
use aigov.Prelude.{
  List, Result, String, [], any_row, err, false, map, nat_eq, none, ok, refl, some, true, ℕ, ◌==◌,
  ◌↔◌, ◌∷◌, ◌≡◌, ◌≤◌,
}

abbrev control_of : ℕ → Control
control_of id = record { id = id; code = "C"; title = "Control" }

abbrev decided_item : ℕ → AssessmentItem
decided_item id = record (risk_item ProvenanceConfidence.user_confirmed) { id = id }

abbrev link_of : ℕ → ℕ → ℕ → CoverageStatus → AssessmentItemControl
link_of id item_id control_id coverage = record {
  id = id;
  tenant_id = 1;
  item_id = item_id;
  control_id = control_id;
  coverage = coverage;
}

-- Two items of an approved AIIA, of which one has evidence, and three controls.
abbrev covered : Session
covered = record (cleared LifecycleState.treatment_pending) {
  items = decided_item 70 ∷ decided_item 71 ∷ [];
  item_controls =
      link_of 200 70 300 CoverageStatus.satisfied
      ∷ link_of 201 71 300 CoverageStatus.partial
      ∷ link_of 202 71 301 CoverageStatus.satisfied
      ∷ [];
  item_evidence = record { id = 210; tenant_id = 1; item_id = 70; evidence_id = 220 } ∷ [];
  controls = control_of 300 ∷ control_of 301 ∷ control_of 302 ∷ [];
  framework_maps =
      record { control_id = 300; framework = Framework.eu_ai_act; clause_ref = "Art. 9" }
      ∷ record { control_id = 302; framework = Framework.eu_ai_act; clause_ref = "Art. 9" }
      ∷ [];
}

abbrev in_tenant : ScopeClause
in_tenant a = a.tenant_id == 1

abbrev verdicts : Result CoverageMatrix → List (ℕ × String)
verdicts (ok m) = map (λ cr. (cr.control_id, cr.verdict)) m.controls
verdicts (err e) = []

-- With evidence asked for, the control whose item has none is only partly covered.
strict_verdicts :
    verdicts (compute_coverage 1 "assessment" (some 40) none false true covered)
    ≡ (300, "SATISFIED") ∷ (301, "PARTIAL") ∷ []
unfolding compute_coverage
strict_verdicts = refl

lax_verdicts :
    verdicts (compute_coverage 1 "tenant" none (some Framework.eu_ai_act) false false covered)
    ≡ (300, "SATISFIED") ∷ []
unfolding compute_coverage
lax_verdicts = refl

compute_coverage-Answers_example :
    Answers
      (λ scope_clause. links_in_play 1 scope_clause false true covered)
      (resolve_scope_clause 1 "assessment" (some 40) covered)
      (compute_coverage 1 "assessment" (some 40) none false true covered)
compute_coverage-Answers_example =
    compute_coverage-Answers 1 "assessment" (some 40) none false true covered

known_control : any_row (λ row. row.id == 302) covered.controls ≡ true
known_control = refl

coverage_matrix-IsPlaced_example :
    IsPlaced
      (some Framework.eu_ai_act)
      (links_in_play 1 in_tenant false false covered)
      covered
      (coverage_matrix "tenant" none
        (some Framework.eu_ai_act)
        false
        (links_in_play 1 in_tenant false false covered)
        covered)
      302
coverage_matrix-IsPlaced_example =
    coverage_matrix-IsPlaced "tenant" none (some Framework.eu_ai_act) false
      (links_in_play 1 in_tenant false false covered) covered 302 known_control

links_in_play-le_example :
    (((verdict_on 301 1 in_tenant false true covered ≡ "SATISFIED") ↔ (
        counts_as 301
          (λ c. c == CoverageStatus.satisfied)
          (links_in_play 1 in_tenant false true covered)
        ≡ true))
      × ((verdict_on 301 1 in_tenant false true covered ≡ "OPEN") ↔ (
          (counts_as 301
              (λ c. c == CoverageStatus.satisfied)
              (links_in_play 1 in_tenant false true covered)
            ≡ false)
          × (counts_as 301
                (λ c. c == CoverageStatus.partial)
                (links_in_play 1 in_tenant false true covered)
              ≡ false))))
    × (verdict_rank (verdict_on 301 1 in_tenant false true covered)
        ≤ verdict_rank (verdict_on 301 1 in_tenant false false covered))
    × (verdict_rank (verdict_on 301 1 in_tenant false true covered)
        ≤ verdict_rank (verdict_on 301 1 in_tenant true true covered))
links_in_play-le_example = links_in_play-le 301 1 in_tenant false true covered
