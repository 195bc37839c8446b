-- ===== src/Review/Update.antt =====
-- `_conditional_status_update` of app/services/assessment_review_service.py.
use aigov.Model.Enums.Assessment.{AssessmentStatus, assessment_status_eq, assessment_status_value}
use aigov.Model.Rows.Assessment.{Assessment}
use aigov.Model.Session.{Session, TenantContext, get_assessment}
use aigov.Prelude.{
  Bool, Error, Exec, List, Message, Result, [], any_row, attribute_error, err, http, if◌then◌else◌,
  lit, nat_eq, not, ok, or_error, update_rows, ℕ, ◌&&◌, ◌++◌, ◌+◌, ◌==◌, ◌∷◌,
}

-- `[s.value for s in from_statuses]`, as Python prints a list of strings.
abbrev pub status_names : List AssessmentStatus → Message
status_names [] = []
status_names (s ∷ []) = lit "'" ∷ lit (assessment_status_value s) ∷ lit "'" ∷ []
status_names (s ∷ rest) = lit "'" ∷ lit (assessment_status_value s) ∷ lit "', " ∷ status_names rest

-- The condition of the UPDATE.
abbrev pub update_applies :
    Assessment → TenantContext → ℕ → List AssessmentStatus → Assessment → Bool
update_applies a ctx expected_lock_version from_statuses row =
    row.id == a.id
    && row.tenant_id == ctx.tenant_id
    && row.lock_version == expected_lock_version
    && any_row (λ s. s == row.status) from_statuses

-- `{**values, "lock_version": Assessment.lock_version + 1}`, computed on the row.
abbrev pub bumped : (Assessment → Assessment) → Assessment → Assessment
bumped values row = record (values row) { lock_version = row.lock_version + 1 }

abbrev pub stale_if_match : Error
stale_if_match = http 412 (lit "Stale If-Match: assessment was modified by another request" ∷ [])

abbrev pub wrong_status : Assessment → List AssessmentStatus → Error
wrong_status a from_statuses = http 409 (
    lit "Assessment status is "
    ∷ lit (assessment_status_value a.status)
    ∷ lit "; expected one of ["
    ∷ (status_names from_statuses ++ lit "]" ∷ []))

-- `db.refresh(assessment)`: the row by its key; a row that is gone cannot be refreshed.
abbrev pub refresh : Assessment → Session → Result Assessment
refresh a db = or_error attribute_error (get_assessment db a.id)

-- The error of an UPDATE that no row satisfied, by the refreshed row.
abbrev pub update_error : ℕ → List AssessmentStatus → Result Assessment → Error
update_error expected from_statuses (err e) = e
update_error expected from_statuses (ok a) =
    if not (a.lock_version == expected) then stale_if_match else wrong_status a from_statuses

-- The UPDATE, and the refreshed assessment.
unfoldable pub apply_update :
    Assessment
    → TenantContext
    → ℕ
    → List AssessmentStatus
    → (Assessment → Assessment)
    → Session
    → Session
apply_update a ctx expected from_statuses values db = record db {
  assessments =
      update_rows (update_applies a ctx expected from_statuses) (bumped values) db.assessments;
}

unfoldable pub conditional_status_update :
    Assessment
    → TenantContext
    → ℕ
    → List AssessmentStatus
    → (Assessment → Assessment)
    → Exec Session Assessment
unfolding apply_update
conditional_status_update a ctx expected from_statuses values db =
    if any_row (update_applies a ctx expected from_statuses) db.assessments
    then (
      refresh a (apply_update a ctx expected from_statuses values db),
      apply_update a ctx expected from_statuses values db,
    )
    else (err (update_error expected from_statuses (refresh a db)), db)
