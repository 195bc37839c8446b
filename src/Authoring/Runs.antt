-- ===== src/Authoring/Runs.antt =====
-- Sequences of authoring requests on one session (app/services/assessment_service.py).
use aigov.Authoring.Amend.{AssessmentItemAmend, Synchronised, amend_item}
use aigov.Authoring.Creation.{create_aiia}
use aigov.Authoring.Deletion.{delete_assessment}
use aigov.Authoring.Feeders.{create_feeder}
use aigov.Authoring.Intact.{IsIntact}
use aigov.Authoring.Links.{
  create_control_link, create_evidence_link, delete_control_link, delete_evidence_link,
}
use aigov.Authoring.Sections.{create_item_from_section}
use aigov.Authoring.Steps.{
  amend_item-IsIntact, confirm_item-IsIntact, create_aiia-IsIntact, create_control_link-IsIntact,
  create_evidence_link-IsIntact, create_feeder-IsIntact, create_item_from_section-IsIntact,
  delete_assessment-IsIntact, delete_control_link-IsIntact, delete_evidence_link-IsIntact,
  delete_item-IsIntact,
}
use aigov.Items.{confirm_item, delete_item}
use aigov.Model.Enums.Assessment.{AssessmentType}
use aigov.Model.Enums.Knowledge.{CoverageStatus}
use aigov.Model.Session.{Session, TenantContext}
use aigov.Prelude.{Option, String, nat_eq, ℕ}

-- One authoring request, whether it returns or raises.
pub data AuthoringRequest : Session → Session → Type 0 where
  scopes :
      {db : Session} (use_case_id : ℕ) (ctx : TenantContext)
      → AuthoringRequest db (create_aiia use_case_id ctx db).1
  feeds :
      {db : Session} (parent_id : ℕ) (type : AssessmentType) (ctx : TenantContext)
      → AuthoringRequest db (create_feeder parent_id type ctx db).1
  answers_section :
      {db : Session} (assessment_id : ℕ) (section_key : String) (response : Option String)
      (ctx : TenantContext)
      → AuthoringRequest db (create_item_from_section assessment_id section_key response ctx db).1
  amends :
      {db : Session} (synchronised : Synchronised) (item_id : ℕ) (patch : AssessmentItemAmend)
      (expected : ℕ) (ctx : TenantContext)
      → AuthoringRequest db (amend_item synchronised item_id patch expected ctx db).1
  confirms :
      {db : Session} (item_id expected : ℕ) (ctx : TenantContext)
      → AuthoringRequest db (confirm_item item_id expected ctx db).1
  removes_item :
      {db : Session} (item_id : ℕ) (ctx : TenantContext)
      → AuthoringRequest db (delete_item item_id ctx db).1
  removes_assessment :
      {db : Session} (id : ℕ) (ctx : TenantContext)
      → AuthoringRequest db (delete_assessment id ctx db).1
  links_control :
      {db : Session} (item_id control_id : ℕ) (coverage : CoverageStatus) (ctx : TenantContext)
      → AuthoringRequest db (create_control_link item_id control_id coverage ctx db).1
  unlinks_control :
      {db : Session} (link_id : ℕ) (ctx : TenantContext)
      → AuthoringRequest db (delete_control_link link_id ctx db).1
  links_evidence :
      {db : Session} (item_id evidence_id : ℕ) (ctx : TenantContext)
      → AuthoringRequest db (create_evidence_link item_id evidence_id ctx db).1
  unlinks_evidence :
      {db : Session} (item_id evidence_id : ℕ) (ctx : TenantContext)
      → AuthoringRequest db (delete_evidence_link item_id evidence_id ctx db).1

pub data AuthoringRun : Session → Session → Type 0 where
  at_rest : {db : Session} → AuthoringRun db db
  and_next :
      {db db' db'' : Session}
      → AuthoringRequest db db'
      → AuthoringRun db' db''
      → AuthoringRun db db''

AuthoringRequest-IsIntact :
    {db db' : Session} → AuthoringRequest db db' → IsIntact db → IsIntact db'
AuthoringRequest-IsIntact (scopes use_case_id ctx) = (create_aiia-IsIntact use_case_id ctx).at _
AuthoringRequest-IsIntact (feeds parent_id type ctx) =
    (create_feeder-IsIntact parent_id type ctx).at _
AuthoringRequest-IsIntact (answers_section assessment_id section_key response ctx) =
    (create_item_from_section-IsIntact assessment_id section_key response ctx).at _
AuthoringRequest-IsIntact (amends synchronised item_id patch expected ctx) =
    (amend_item-IsIntact synchronised item_id patch expected ctx).at _
AuthoringRequest-IsIntact (confirms item_id expected ctx) =
    (confirm_item-IsIntact item_id expected ctx).at _
AuthoringRequest-IsIntact (removes_item item_id ctx) = (delete_item-IsIntact item_id ctx).at _
AuthoringRequest-IsIntact (removes_assessment id ctx) = (delete_assessment-IsIntact id ctx).at _
AuthoringRequest-IsIntact (links_control item_id control_id coverage ctx) =
    (create_control_link-IsIntact item_id control_id coverage ctx).at _
AuthoringRequest-IsIntact (unlinks_control link_id ctx) =
    (delete_control_link-IsIntact link_id ctx).at _
AuthoringRequest-IsIntact (links_evidence item_id evidence_id ctx) =
    (create_evidence_link-IsIntact item_id evidence_id ctx).at _
AuthoringRequest-IsIntact (unlinks_evidence item_id evidence_id ctx) =
    (delete_evidence_link-IsIntact item_id evidence_id ctx).at _

-- An intact session stays intact through every sequence of authoring requests, whether they return
-- or raise: no use case gets a second current AIIA, no AIIA a second feeder of a type, and every
-- item is one of an assessment that is there.
pub AuthoringRun-IsIntact : {db db' : Session} → AuthoringRun db db' → IsIntact db → IsIntact db'
AuthoringRun-IsIntact at_rest h = h
AuthoringRun-IsIntact (and_next step rest) h =
    AuthoringRun-IsIntact rest (AuthoringRequest-IsIntact step h)
