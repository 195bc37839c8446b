-- ===== src/Model/Enums/Assessment.antt =====
-- The enums of assessments and reviews (app/models/base.py), with the value that each member is
-- printed by.
use aigov.Prelude.{ℕ, String, ◌≡◌, arith, Eq, enum_eq}

pub data AssessmentType : Type 0 where
  aiia fria dpia model_risk : AssessmentType

abbrev pub assessment_type_code : AssessmentType → ℕ
assessment_type_code aiia = 0
assessment_type_code fria = 1
assessment_type_code dpia = 2
assessment_type_code model_risk = 3

pub assessment_type_code-injective :
    (a b : AssessmentType) → assessment_type_code a ≡ assessment_type_code b → a ≡ b
assessment_type_code-injective a b h = ground arith

instance abbrev pub assessment_type_eq : Eq AssessmentType
assessment_type_eq = enum_eq assessment_type_code assessment_type_code-injective

abbrev pub assessment_type_value : AssessmentType → String
assessment_type_value aiia = "aiia"
assessment_type_value fria = "fria"
assessment_type_value dpia = "dpia"
assessment_type_value model_risk = "model_risk"

pub data AssessmentStatus : Type 0 where
  draft in_review approved needs_refresh : AssessmentStatus

abbrev pub assessment_status_code : AssessmentStatus → ℕ
assessment_status_code draft = 0
assessment_status_code in_review = 1
assessment_status_code approved = 2
assessment_status_code needs_refresh = 3

pub assessment_status_code-injective :
    (a b : AssessmentStatus) → assessment_status_code a ≡ assessment_status_code b → a ≡ b
assessment_status_code-injective a b h = ground arith

instance abbrev pub assessment_status_eq : Eq AssessmentStatus
assessment_status_eq = enum_eq assessment_status_code assessment_status_code-injective

abbrev pub assessment_status_value : AssessmentStatus → String
assessment_status_value draft = "draft"
assessment_status_value in_review = "in_review"
assessment_status_value approved = "approved"
assessment_status_value needs_refresh = "needs_refresh"

pub data ProvenanceConfidence : Type 0 where
  ai_suggested catalogue_curated user_confirmed user_amended : ProvenanceConfidence

abbrev pub provenance_confidence_code : ProvenanceConfidence → ℕ
provenance_confidence_code ai_suggested = 0
provenance_confidence_code catalogue_curated = 1
provenance_confidence_code user_confirmed = 2
provenance_confidence_code user_amended = 3

pub provenance_confidence_code-injective :
    (a b : ProvenanceConfidence)
    → provenance_confidence_code a ≡ provenance_confidence_code b
    → a ≡ b
provenance_confidence_code-injective a b h = ground arith

instance abbrev pub provenance_confidence_eq : Eq ProvenanceConfidence
provenance_confidence_eq = enum_eq provenance_confidence_code provenance_confidence_code-injective

abbrev pub provenance_confidence_value : ProvenanceConfidence → String
provenance_confidence_value ai_suggested = "ai_suggested"
provenance_confidence_value catalogue_curated = "catalogue_curated"
provenance_confidence_value user_confirmed = "user_confirmed"
provenance_confidence_value user_amended = "user_amended"

pub data SectionApplicability : Type 0 where
  required recommended not_applicable : SectionApplicability

abbrev pub section_applicability_code : SectionApplicability → ℕ
section_applicability_code required = 0
section_applicability_code recommended = 1
section_applicability_code not_applicable = 2

pub section_applicability_code-injective :
    (a b : SectionApplicability)
    → section_applicability_code a ≡ section_applicability_code b
    → a ≡ b
section_applicability_code-injective a b h = ground arith

instance abbrev pub section_applicability_eq : Eq SectionApplicability
section_applicability_eq = enum_eq section_applicability_code section_applicability_code-injective

abbrev pub section_applicability_value : SectionApplicability → String
section_applicability_value required = "required"
section_applicability_value recommended = "recommended"
section_applicability_value not_applicable = "not_applicable"

pub data ReviewDecision : Type 0 where
  approved changes_requested : ReviewDecision

abbrev pub review_decision_code : ReviewDecision → ℕ
review_decision_code approved = 0
review_decision_code changes_requested = 1

pub review_decision_code-injective :
    (a b : ReviewDecision) → review_decision_code a ≡ review_decision_code b → a ≡ b
review_decision_code-injective a b h = ground arith

instance abbrev pub review_decision_eq : Eq ReviewDecision
review_decision_eq = enum_eq review_decision_code review_decision_code-injective

abbrev pub review_decision_value : ReviewDecision → String
review_decision_value approved = "approved"
review_decision_value changes_requested = "changes_requested"

pub data TreatmentDecision : Type 0 where
  mitigate accept transfer avoid : TreatmentDecision

abbrev pub treatment_decision_code : TreatmentDecision → ℕ
treatment_decision_code mitigate = 0
treatment_decision_code accept = 1
treatment_decision_code transfer = 2
treatment_decision_code avoid = 3

pub treatment_decision_code-injective :
    (a b : TreatmentDecision) → treatment_decision_code a ≡ treatment_decision_code b → a ≡ b
treatment_decision_code-injective a b h = ground arith

instance abbrev pub treatment_decision_eq : Eq TreatmentDecision
treatment_decision_eq = enum_eq treatment_decision_code treatment_decision_code-injective

abbrev pub treatment_decision_value : TreatmentDecision → String
treatment_decision_value mitigate = "mitigate"
treatment_decision_value accept = "accept"
treatment_decision_value transfer = "transfer"
treatment_decision_value avoid = "avoid"
