-- ===== src/Authoring/Creation.antt =====
-- The creation of an AIIA, with what it is pre-filled with (app/services/assessment_service.py).
use aigov.Authoring.Rows.{
  Fact, ProposedRisk, add_proposed_risk_items, add_snapshot_items, instantiate_required_sections,
  new_assessment, propose_risk_set, resolve_label,
}
use aigov.Authoring.Sections.{templates_for}
use aigov.Gates.Readiness.{classification_readiness}
use aigov.Gates.Verdict.{GateResult, Verdict, verdict_eq}
use aigov.Items.{stage_audit}
use aigov.Model.Enums.Assessment.{AssessmentType, assessment_type_eq}
use aigov.Model.Enums.Lifecycle.{EuAiActTier, eu_ai_act_tier_value}
use aigov.Model.Rows.Assessment.{Assessment}
use aigov.Model.Rows.Domain.{System, UseCase}
use aigov.Model.Rows.Knowledge.{AssessmentSectionTemplate, Term}
use aigov.Model.Rows.Lifecycle.{Detail}
use aigov.Model.Session.{Session, TenantContext, get_system}
use aigov.Prelude.{
  Bool, Error, Exec, List, Message, Option, Result, String, [], any_row, attribute_error, err,
  false, find?, gets, guard, http, if◌then◌else◌, is_empty, lit, map, nat_eq, none, not, ok,
  or_error, pure, raise, read, some, string_eq, uid, ℕ, ◌&&◌, ◌++◌, ◌+◌, ◌==◌, ◌>>=◌, ◌>>◌, ◌∷◌,
}

-- `_load_use_case`
unfoldable pub load_own_use_case : ℕ → TenantContext → Session → Result UseCase
load_own_use_case use_case_id ctx db =
    or_error (http 404 (lit "Use case not found" ∷ []))
      (find? (λ row. row.id == use_case_id && row.tenant_id == ctx.tenant_id) db.use_cases)

-- `_load_current_classification(...).version`, where None has no version.
abbrev pub current_classification_version : ℕ → Session → Result ℕ
current_classification_version use_case_id db =
    elim (find? (λ row. row.use_case_id == use_case_id && row.is_current) db.classifications) [
      | none ↦ err attribute_error
      | some row ↦ ok row.version
    ]

abbrev pub reason_is : String → Message → Bool
reason_is code (lit s ∷ []) = s == code
reason_is code _ = false

-- What a verdict of the readiness gate other than to advance raises.
unfoldable pub readiness_guard : GateResult → Exec Session (Unit {0})
readiness_guard gate =
    if gate.verdict == Verdict.halt
    then raise
        (http 409 (lit "Use case is classified PROHIBITED; no assessment may be created" ∷ []))
    else if gate.verdict == Verdict.park
    then if reason_is "no_classification_snapshot" gate.reason_code
      then raise (http 409 (lit "Use case has no current classification snapshot" ∷ []))
      else raise
          (http 409 (lit "Use case requires classification context before scoping an AIIA" ∷ []))
    else pure tt

abbrev pub is_current_aiia_of : ℕ → Assessment → Bool
is_current_aiia_of use_case_id row =
    row.use_case_id == use_case_id && row.type == AssessmentType.aiia && row.is_current

abbrev pub aiia_exists : Error
aiia_exists = http 409 (lit "A current AIIA already exists for this use case" ∷ [])

-- The insertion of a row under a unique index: where a row already meets the index, the flush raises
-- IntegrityError, and the rollback leaves the table without the row.
abbrev pub insert_assessment :
    (Assessment → Bool) → Error → (ℕ → Assessment) → Exec Session Assessment
insert_assessment conflict e row_with db =
    let row = row_with (db.uuids db.drawn) in
    if any_row conflict db.assessments
    then (err e, record db { drawn = db.drawn + 1 })
    else (ok row, record db { assessments = db.assessments ++ row ∷ []; drawn = db.drawn + 1 })

abbrev pub no_template : String → EuAiActTier → Error
no_template type tier = http 500 (
    lit "No section template seeded for ("
    ∷ lit type
    ∷ lit ", "
    ∷ lit (eu_ai_act_tier_value tier)
    ∷ lit ")"
    ∷ [])

-- A dimension of the register whose label resolves, as a fact.
abbrev pub dimension_fact : String → List Term → Option ℕ → String → List Fact
dimension_fact label_prefix terms none ref = []
dimension_fact label_prefix terms (some fk_id) ref = elim (resolve_label terms (some fk_id)) [
  | none ↦ []
  | some label ↦
      record {
        prompt = lit label_prefix ∷ lit ": " ∷ lit label ∷ [];
        response = label;
        source_ref = lit ref ∷ lit ":" ∷ uid fk_id ∷ [];
      }
      ∷ []
]

-- The operator roles as a vocabulary.
abbrev pub role_terms : Session → List Term
role_terms db = map (λ role. record { id = role.id; label = role.label }) db.operator_roles

-- `snapshot_facts`
unfoldable pub snapshot_facts : UseCase → Option System → Session → List Fact
snapshot_facts use_case none db = []
snapshot_facts use_case (some system) db =
    record {
      prompt = lit "System name: " ∷ lit system.name ∷ [];
      response = system.name;
      source_ref = lit "system.name" ∷ [];
    }
      ∷ dimension_fact "Operator role" (role_terms db) system.operator_role_id
          "system.operator_role_id"
    ++ (dimension_fact "Hosting model" db.hosting_models system.hosting_model_id
          "system.hosting_model_id"
        ++ (dimension_fact "Usage context" db.usage_contexts use_case.usage_context_id
              "use_case.usage_context_id"
            ++ dimension_fact "Human oversight type" db.human_oversight_types
                use_case.human_oversight_type_id "use_case.human_oversight_type_id"))

abbrev pub product_of : Option System → Option ℕ
product_of none = none
product_of (some system) = system.catalogue_product_id

abbrev pub risk_ids : List ProposedRisk → Detail
risk_ids proposed = Detail.ids (map (λ p. p.risk_id) proposed)

abbrev pub created_detail : EuAiActTier → ℕ → ℕ → ℕ → List ProposedRisk → List (String × Detail)
created_detail tier version required_count snapshot_count proposed =
    ("tier_snapshot", Detail.text (eu_ai_act_tier_value tier))
    ∷ ("classification_version", Detail.num version)
    ∷ ("required_sections", Detail.num required_count)
    ∷ ("snapshotted_facts", Detail.num snapshot_count)
    ∷ ("proposed_risk_ids", risk_ids proposed)
    ∷ []

-- The items of a new AIIA, and the audit row.
unfoldable pub prefill_aiia :
    UseCase
    → Option System
    → ℕ
    → List AssessmentSectionTemplate
    → Assessment
    → TenantContext
    → Exec Session Assessment
unfolding instantiate_required_sections snapshot_facts add_snapshot_items propose_risk_set
    add_proposed_risk_items
prefill_aiia use_case system version template_rows assessment ctx = do
  required_count ←
      instantiate_required_sections ctx assessment.id (some "risk_identification") template_rows
  facts ← gets (snapshot_facts use_case system)
  snapshot_count ← add_snapshot_items ctx assessment.id "system_overview" facts
  proposed ← gets (propose_risk_set AssessmentType.aiia use_case.eu_tier [] (product_of system))
  add_proposed_risk_items ctx assessment.id "risk_identification" proposed
  stage_audit ctx "assessment.created" "assessment" assessment.id
      (created_detail use_case.eu_tier version required_count snapshot_count proposed)
  pure assessment

unfoldable pub create_aiia : ℕ → TenantContext → Exec Session Assessment
unfolding load_own_use_case readiness_guard templates_for prefill_aiia classification_readiness
create_aiia use_case_id ctx = do
  use_case ← read (load_own_use_case use_case_id ctx)
  system ← gets (λ db. get_system db use_case.system_id)
  gate ← gets (classification_readiness use_case)
  readiness_guard gate
  version ← read (current_classification_version use_case_id)
  taken ← gets (λ db. any_row (is_current_aiia_of use_case_id) db.assessments)
  guard (not taken) aiia_exists
  template_rows ← gets (templates_for AssessmentType.aiia use_case.eu_tier)
  guard (not (is_empty template_rows)) (no_template "AIIA" use_case.eu_tier)
  assessment ←
      insert_assessment (is_current_aiia_of use_case_id) aiia_exists
        (λ id. new_assessment id ctx use_case_id AssessmentType.aiia use_case.eu_tier version)
  prefill_aiia use_case system version template_rows assessment ctx
