-- ===== src/Items.antt =====
-- Items of assessments: the authoring lock, the confirmation and the deletion
-- (app/services/assessment_service.py).
pub mod Lock
use aigov.Lifecycle.Advance.{advance_use_case}
use aigov.Model.Enums.Assessment.{
  AssessmentStatus, ProvenanceConfidence, assessment_status_eq, provenance_confidence_eq,
}
use aigov.Model.Rows.Assessment.{Assessment, AssessmentItem}
use aigov.Model.Rows.Lifecycle.{Detail}
use aigov.Model.Session.{Session, TenantContext, get_assessment}
use aigov.Prelude.{
  Bool, Error, Exec, List, Message, Option, Result, String, [], any_row, attribute_error, err,
  find?, gets, guard, http, if◌then◌else◌, lit, map, modify, nat_eq, none, not, ok, or_error, pure,
  read, some, uid, update_rows, where_rows, ℕ, ◌&&◌, ◌++◌, ◌+◌, ◌==◌, ◌>>=◌, ◌>>◌, ◌||◌, ◌∷◌,
}
use aigov.Review.{use_case_of}

-- `_load_item`
unfoldable pub load_item : ℕ → TenantContext → Session → Result AssessmentItem
load_item item_id ctx db =
    or_error (http 404 (lit "Assessment item not found" ∷ []))
      (find? (λ row. row.id == item_id && row.tenant_id == ctx.tenant_id) db.items)

-- `db.get(Assessment, id)` where the code goes on to read an attribute.
abbrev pub assessment_by_id : ℕ → Session → Result Assessment
assessment_by_id id db = or_error attribute_error (get_assessment db id)

-- The AIIA that an assessment surfaces into: its parent, or the assessment itself.
abbrev pub parent_or_self : Assessment → Session → Result Assessment
parent_or_self a db = elim a.parent_aiia_id [
  | none ↦ ok a
  | some parent_id ↦ assessment_by_id parent_id db
]

abbrev pub is_locking : AssessmentStatus → Bool
is_locking s = s == AssessmentStatus.in_review || s == AssessmentStatus.approved

abbrev pub authoring_locked : Error
authoring_locked = http 409 (lit "Assessment is under review or approved; authoring is locked" ∷ [])

-- `_assert_authoring_unlocked`
unfoldable pub assert_authoring_unlocked : ℕ → Exec Session (Unit {0})
assert_authoring_unlocked assessment_id = do
  assessment ← read (assessment_by_id assessment_id)
  parent ← read (parent_or_self assessment)
  guard (not (is_locking parent.status)) authoring_locked

-- The condition of the UPDATE of a confirmation.
abbrev pub is_confirmable : ℕ → ℕ → TenantContext → AssessmentItem → Bool
is_confirmable item_id expected_lock_version ctx row =
    row.id == item_id
    && row.tenant_id == ctx.tenant_id
    && row.provenance == ProvenanceConfidence.ai_suggested
    && row.lock_version == expected_lock_version

abbrev pub confirmed : AssessmentItem → AssessmentItem
confirmed row = record row {
  provenance = ProvenanceConfidence.user_confirmed;
  lock_version = row.lock_version + 1;
}

abbrev pub not_confirmable : Error
not_confirmable = http 409 (lit "Item is not confirmable, or was modified concurrently" ∷ [])

unfoldable pub update_confirmed : ℕ → ℕ → TenantContext → Exec Session (Unit {0})
update_confirmed item_id expected_lock_version ctx db =
    if any_row (is_confirmable item_id expected_lock_version ctx) db.items
    then (
      ok tt,
      record db {
        items = update_rows (is_confirmable item_id expected_lock_version ctx) confirmed db.items;
      },
    )
    else (err not_confirmable, db)

-- `_stage_audit`
abbrev pub stage_audit :
    TenantContext → String → String → ℕ → List (String × Detail) → Exec Session (Unit {0})
stage_audit ctx action entity_type entity_id detail db = (
  ok tt,
  record db {
    audit_events =
        db.audit_events
        ++ record {
          id = db.uuids db.drawn;
          tenant_id = ctx.tenant_id;
          actor_user_id = ctx.user_id;
          action = action;
          entity_type = entity_type;
          entity_id = entity_id;
          detail = detail;
        }
          ∷ [];
    drawn = db.drawn + 1;
  },
)

abbrev pub stage_item_audit :
    TenantContext → String → ℕ → List (String × Detail) → Exec Session (Unit {0})
stage_item_audit ctx action item_id detail = stage_audit ctx action "assessment_item" item_id detail

abbrev pub id_or_null : Option ℕ → Detail
id_or_null none = Detail.null
id_or_null (some id) = Detail.message (uid id ∷ [])

-- `db.refresh(item)`
abbrev pub refresh_item : ℕ → Session → Result AssessmentItem
refresh_item id db = or_error attribute_error (find? (λ row. row.id == id) db.items)

unfoldable pub confirm_item : ℕ → ℕ → TenantContext → Exec Session AssessmentItem
unfolding assert_authoring_unlocked update_confirmed advance_use_case
confirm_item item_id expected_lock_version ctx = do
  item ← read (load_item item_id ctx)
  assert_authoring_unlocked item.assessment_id
  update_confirmed item_id expected_lock_version ctx
  stage_item_audit ctx "assessment_item.confirmed" item_id
      (("risk_id", id_or_null item.risk_id) ∷ [])
  refreshed ← read (refresh_item item.id)
  assessment ← read (assessment_by_id item.assessment_id)
  use_case ← read (use_case_of assessment)
  advance_use_case use_case ctx.user_id
  pure refreshed

-- `[str(link_id) for ...]`, printed one after another.
abbrev pub link_ids : ℕ → Session → Message
link_ids item_id db =
    map (λ link. uid link.id) (where_rows (λ link. link.item_id == item_id) db.item_controls)

-- `db.delete(item)`, with the links that go with it by the foreign key's cascade.
abbrev pub without_item : AssessmentItem → Session → Session
without_item item db = record db {
  items = where_rows (λ row. not (row.id == item.id)) db.items;
  item_controls = where_rows (λ link. not (link.item_id == item.id)) db.item_controls;
  item_evidence = where_rows (λ link. not (link.item_id == item.id)) db.item_evidence;
}

unfoldable pub delete_item : ℕ → TenantContext → Exec Session (Unit {0})
delete_item item_id ctx = do
  item ← read (load_item item_id ctx)
  links ← gets (link_ids item.id)
  modify (without_item item)
  stage_item_audit ctx "assessment_item.deleted" item_id
      (("cascaded_control_link_ids", Detail.message links) ∷ [])
