-- ===== src/Authoring/Deletion.antt =====
-- The deletion of a pristine assessment (app/services/assessment_service.py).
use aigov.Items.{stage_audit}
use aigov.Model.Enums.Assessment.{
  AssessmentStatus, ProvenanceConfidence, assessment_status_eq, provenance_confidence_eq,
}
use aigov.Model.Rows.Assessment.{Assessment, AssessmentItem}
use aigov.Model.Session.{Session, TenantContext}
use aigov.Prelude.{
  Bool, Error, Exec, [], any_row, gets, guard, holds, http, is_none, lit, modify, nat_eq, not, read,
  where_rows, ℕ, ◌&&◌, ◌==◌, ◌>>=◌, ◌>>◌, ◌||◌, ◌∷◌,
}
use aigov.Review.{load_assessment}

-- A human acted on the item; a snapshotted register fact has a source.
abbrev pub is_worked : AssessmentItem → Bool
is_worked item =
    (item.provenance == ProvenanceConfidence.user_confirmed
      || item.provenance == ProvenanceConfidence.user_amended)
    && is_none item.source_ref

-- A link to an item of the assessment, by the join with the items.
abbrev pub is_of_assessment : ℕ → Session → ℕ → Bool
is_of_assessment assessment_id db item_id =
    any_row (λ item. item.id == item_id && item.assessment_id == assessment_id) db.items

unfoldable pub is_pristine : Assessment → Session → Bool
is_pristine assessment db =
    assessment.status == AssessmentStatus.draft
    && not (any_row (λ row. row.assessment_id == assessment.id) db.reviews)
    && not (any_row (λ row. row.assessment_id == assessment.id) db.authorisations)
    && not (any_row (λ item. item.assessment_id == assessment.id && is_worked item) db.items)
    && not (any_row (λ link. is_of_assessment assessment.id db link.item_id) db.item_controls)
    && not (any_row (λ link. is_of_assessment assessment.id db link.item_id) db.item_evidence)
    && not (any_row (λ row. holds row.parent_aiia_id assessment.id) db.assessments)

-- `db.delete(assessment)`, with its items, by the cascade of the relationship. An assessment that
-- is pristine has no feeders and its items have no links.
abbrev pub without_assessment : ℕ → Session → Session
without_assessment id db = record db {
  assessments = where_rows (λ row. not (row.id == id)) db.assessments;
  items = where_rows (λ item. not (item.assessment_id == id)) db.items;
}

abbrev pub worked_content : Error
worked_content =
    http 409 (lit "Assessment has worked content; use void (deferred), not delete" ∷ [])

unfoldable pub delete_assessment : ℕ → TenantContext → Exec Session (Unit {0})
unfolding load_assessment is_pristine
delete_assessment assessment_id ctx = do
  assessment ← read (load_assessment assessment_id ctx)
  pristine ← gets (is_pristine assessment)
  guard pristine worked_content
  modify (without_assessment assessment.id)
  stage_audit ctx "assessment.deleted" "assessment" assessment_id []
