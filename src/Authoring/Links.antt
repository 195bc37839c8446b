-- ===== src/Authoring/Links.antt =====
-- The links of items to controls and to evidence (app/services/assessment_service.py).
use aigov.Items.{assert_authoring_unlocked, load_item, stage_audit}
use aigov.Model.Enums.Assessment.{ProvenanceConfidence, provenance_confidence_eq}
use aigov.Model.Enums.Knowledge.{CoverageStatus, coverage_status_value}
use aigov.Model.Rows.Assessment.{AssessmentItemControl, AssessmentItemEvidence}
use aigov.Model.Rows.Knowledge.{Control, Evidence}
use aigov.Model.Rows.Lifecycle.{Detail}
use aigov.Model.Session.{Session, TenantContext}
use aigov.Prelude.{
  Bool, Error, Exec, List, Option, Result, String, [], any_row, err, find?, gets, guard, http,
  if◌then◌else◌, lit, modify, nat_eq, none, not, ok, or_error, pure, read, some, uid, where_rows, ℕ,
  ◌&&◌, ◌++◌, ◌+◌, ◌==◌, ◌>>=◌, ◌>>◌, ◌∷◌,
}

abbrev pub printed_id : ℕ → Detail
printed_id id = Detail.message (uid id ∷ [])

-- `db.get(Control, control_id)`
abbrev pub control_by_id : ℕ → Session → Result Control
control_by_id control_id db =
    or_error (http 422 (lit "control_id " ∷ uid control_id ∷ lit " not found" ∷ []))
      (find? (λ row. row.id == control_id) db.controls)

-- The unique constraint of the links to controls.
abbrev pub is_link_between : ℕ → ℕ → AssessmentItemControl → Bool
is_link_between item_id control_id row = row.item_id == item_id && row.control_id == control_id

abbrev pub control_linked : Error
control_linked = http 409 (lit "This control is already linked to this item" ∷ [])

abbrev pub new_control_link : TenantContext → ℕ → ℕ → CoverageStatus → ℕ → AssessmentItemControl
new_control_link ctx item_id control_id coverage id = record {
  id = id;
  tenant_id = ctx.tenant_id;
  item_id = item_id;
  control_id = control_id;
  coverage = coverage;
}

-- The flush of a new link: a violated constraint is rolled back.
unfoldable pub insert_control_link :
    TenantContext → ℕ → ℕ → CoverageStatus → Exec Session AssessmentItemControl
insert_control_link ctx item_id control_id coverage db =
    let link = new_control_link ctx item_id control_id coverage (db.uuids db.drawn) in
    if any_row (is_link_between item_id control_id) db.item_controls
    then (err control_linked, record db { drawn = db.drawn + 1 })
    else (
      ok link,
      record db { item_controls = db.item_controls ++ link ∷ []; drawn = db.drawn + 1 },
    )

unfoldable pub create_control_link :
    ℕ → ℕ → CoverageStatus → TenantContext → Exec Session AssessmentItemControl
unfolding load_item assert_authoring_unlocked insert_control_link
create_control_link item_id control_id coverage ctx = do
  item ← read (load_item item_id ctx)
  assert_authoring_unlocked item.assessment_id
  control ← read (control_by_id control_id)
  link ← insert_control_link ctx item.id control_id coverage
  stage_audit ctx "control_link.created" "assessment_item_control" link.id (
      ("item_id", printed_id item_id)
      ∷ ("control_id", printed_id control_id)
      ∷ ("coverage", Detail.text (coverage_status_value coverage))
      ∷ [])
  pure link

abbrev pub own_control_link : ℕ → TenantContext → Session → Result AssessmentItemControl
own_control_link link_id ctx db =
    or_error (http 404 (lit "Control link not found" ∷ []))
      (find? (λ row. row.id == link_id && row.tenant_id == ctx.tenant_id) db.item_controls)

-- `db.delete(link)`
abbrev pub without_control_link : ℕ → Session → Session
without_control_link id db = record db {
  item_controls = where_rows (λ row. not (row.id == id)) db.item_controls;
}

unfoldable pub delete_control_link : ℕ → TenantContext → Exec Session (Unit {0})
delete_control_link link_id ctx = do
  link ← read (own_control_link link_id ctx)
  modify (without_control_link link.id)
  stage_audit ctx "control_link.deleted" "assessment_item_control" link_id
      (("item_id", printed_id link.item_id) ∷ ("control_id", printed_id link.control_id) ∷ [])

abbrev pub evidence_undecided : Error
evidence_undecided =
    http 409 (lit "Confirm or amend the proposed risk before linking evidence" ∷ [])

abbrev pub own_evidence : ℕ → TenantContext → Session → Result Evidence
own_evidence evidence_id ctx db =
    or_error (http 404 (lit "Evidence not found" ∷ []))
      (find? (λ row. row.id == evidence_id && row.tenant_id == ctx.tenant_id) db.evidence)

abbrev pub is_evidence_of : ℕ → ℕ → AssessmentItemEvidence → Bool
is_evidence_of item_id evidence_id row = row.item_id == item_id && row.evidence_id == evidence_id

abbrev pub evidence_linked : Error
evidence_linked = http 409 (lit "This evidence is already linked to this item" ∷ [])

abbrev pub new_evidence_link : TenantContext → ℕ → ℕ → ℕ → AssessmentItemEvidence
new_evidence_link ctx item_id evidence_id id = record {
  id = id;
  tenant_id = ctx.tenant_id;
  item_id = item_id;
  evidence_id = evidence_id;
}

unfoldable pub insert_evidence_link : TenantContext → ℕ → ℕ → Exec Session AssessmentItemEvidence
insert_evidence_link ctx item_id evidence_id db =
    let link = new_evidence_link ctx item_id evidence_id (db.uuids db.drawn) in
    if any_row (is_evidence_of item_id evidence_id) db.item_evidence
    then (err evidence_linked, record db { drawn = db.drawn + 1 })
    else (
      ok link,
      record db { item_evidence = db.item_evidence ++ link ∷ []; drawn = db.drawn + 1 },
    )

abbrev pub evidence_detail : ℕ → ℕ → List (String × Detail)
evidence_detail item_id evidence_id =
    ("item_id", printed_id item_id) ∷ ("evidence_id", printed_id evidence_id) ∷ []

unfoldable pub create_evidence_link : ℕ → ℕ → TenantContext → Exec Session AssessmentItemEvidence
unfolding load_item assert_authoring_unlocked insert_evidence_link
create_evidence_link item_id evidence_id ctx = do
  item ← read (load_item item_id ctx)
  assert_authoring_unlocked item.assessment_id
  guard (not (item.provenance == ProvenanceConfidence.ai_suggested)) evidence_undecided
  evidence ← read (own_evidence evidence_id ctx)
  link ← insert_evidence_link ctx item.id evidence_id
  stage_audit ctx "evidence.linked" "assessment_item_evidence" link.id
      (evidence_detail item_id evidence_id)
  pure link

abbrev pub without_evidence_link : ℕ → Session → Session
without_evidence_link id db = record db {
  item_evidence = where_rows (λ row. not (row.id == id)) db.item_evidence;
}

-- A link that is not there is no error, and leaves no audit row.
abbrev pub unlink_evidence :
    ℕ → ℕ → TenantContext → Option AssessmentItemEvidence → Exec Session (Unit {0})
unlink_evidence item_id evidence_id ctx none = pure tt
unlink_evidence item_id evidence_id ctx (some link) = do
  modify (without_evidence_link link.id)
  stage_audit ctx "evidence.unlinked" "assessment_item_evidence" link.id
      (evidence_detail item_id evidence_id)

unfoldable pub delete_evidence_link : ℕ → ℕ → TenantContext → Exec Session (Unit {0})
delete_evidence_link item_id evidence_id ctx = do
  found ← gets (λ db.
      find? (λ row. is_evidence_of item_id evidence_id row && row.tenant_id == ctx.tenant_id)
        db.item_evidence)
  unlink_evidence item_id evidence_id ctx found
