-- ===== src/Authoring/Steps.antt =====
-- Each authoring request keeps a session intact (app/services/assessment_service.py).
use aigov.Authoring.Amend.{
  AssessmentItemAmend, Synchronised, after_treatment, amend_item, amended, differs, is_amendable,
  stale_item, update_amended, write_amendment,
}
use aigov.Authoring.Creation.{
  aiia_exists, create_aiia, insert_assessment, is_current_aiia_of, prefill_aiia, readiness_guard,
}
use aigov.Authoring.Deletion.{delete_assessment}
use aigov.Authoring.Feeders.{create_feeder, feeder_exists, is_feeder_of, new_feeder, prefill_feeder}
use aigov.Authoring.Filling.{prefill_aiia-Keeps, prefill_feeder-Keeps}
use aigov.Authoring.Intact.{IsIntact}
use aigov.Authoring.Links.{
  create_control_link, create_evidence_link, delete_control_link, delete_evidence_link,
  unlink_evidence, without_control_link, without_evidence_link,
}
use aigov.Authoring.Recreate.{readiness_guard-same}
use aigov.Authoring.Requests.{
  IsIntact-IsElsewhere, IsIntactWith, add_item-IsIntactWith, insert_assessment-IsIntact,
  insert_control_link-IsIntact, insert_evidence_link-IsIntact, load_assessment-has,
  modify_links-IsIntact, stage_audit-IsIntact, stage_audit-IsIntactWith, update_items-IsIntact,
  without_assessment-IsIntact, without_item-IsIntact,
}
use aigov.Authoring.Rows.{add_item, new_assessment}
use aigov.Authoring.Sections.{answered_item, create_item_from_section, find_template}
use aigov.Gates.Verdict.{GateResult}
use aigov.Items.{
  assert_authoring_unlocked, confirm_item, confirmed, delete_item, is_confirmable, not_confirmable,
  stage_item_audit, update_confirmed,
}
use aigov.Lifecycle.Advance.{advance_use_case}
use aigov.Lifecycle.Elsewhere.{advance_use_case-elsewhere}
use aigov.Model.Enums.Assessment.{AssessmentType, assessment_type_eq}
use aigov.Model.Enums.Knowledge.{CoverageStatus}
use aigov.Model.Rows.Assessment.{Assessment, AssessmentItem, AssessmentItemEvidence}
use aigov.Model.Rows.Domain.{System, UseCase}
use aigov.Model.Rows.Knowledge.{AssessmentSectionTemplate}
use aigov.Model.Rows.Lifecycle.{Detail}
use aigov.Model.Session.{TenantContext}
use aigov.Prelude.{
  Bool, Keeps, Keeps-read, List, Option, String, [], false, keeps_rules, nat_eq, none, pure, read,
  refl, some, ℕ, ◌==◌, ◌>>=◌, ◌>>◌, ◌∷◌, ◌≡◌,
}
use aigov.Review.{load_assessment}
use mathlib.Core.Bool.{or-false}

prefill_aiia-IsIntactWith :
    (use_case : UseCase) (system : Option System) (version : ℕ)
    (rows : List AssessmentSectionTemplate) (ctx : TenantContext) (a : Assessment)
    → Keeps (IsIntactWith a.id) (prefill_aiia use_case system version rows a ctx)
prefill_aiia-IsIntactWith use_case system version rows ctx a =
    prefill_aiia-Keeps a.id (IsIntactWith a.id)
      (λ item_with _ belongs _. add_item-IsIntactWith a.id item_with belongs)
      (stage_audit-IsIntactWith a.id) use_case system version rows a ctx refl

prefill_feeder-IsIntactWith :
    (parent : Assessment) (rows : List AssessmentSectionTemplate) (ctx : TenantContext)
    (a : Assessment)
    → Keeps (IsIntactWith a.id) (prefill_feeder parent rows a ctx)
prefill_feeder-IsIntactWith parent rows ctx a =
    prefill_feeder-Keeps a.id (IsIntactWith a.id)
      (λ item_with _ belongs _. add_item-IsIntactWith a.id item_with belongs)
      (stage_audit-IsIntactWith a.id) parent rows a ctx refl

readiness_guard-IsIntact : (gate : GateResult) → Keeps IsIntact (readiness_guard gate)
readiness_guard-IsIntact gate = record { at = λ db h. rw (readiness_guard-same gate db) h }

pub create_aiia-IsIntact :
    (use_case_id : ℕ) (ctx : TenantContext) → Keeps IsIntact (create_aiia use_case_id ctx)
unfolding create_aiia
create_aiia-IsIntact use_case_id ctx =
    let inserted =
      λ (use_case : UseCase) (system : Option System) (version : ℕ)
          (rows : List AssessmentSectionTemplate).
        insert_assessment-IsIntact (is_current_aiia_of use_case_id) aiia_exists
          (λ id. new_assessment id ctx use_case_id AssessmentType.aiia use_case.eu_tier version)
          (λ a. prefill_aiia use_case system version rows a ctx) (λ n row. or-false _)
          (prefill_aiia-IsIntactWith use_case system version rows ctx) in
    search (keeps_rules, readiness_guard-IsIntact, inserted) depth 24

inserted_feeder-IsIntact :
    (type : AssessmentType) (parent : Assessment) (rows : List AssessmentSectionTemplate)
    (ctx : TenantContext)
    → (type == AssessmentType.aiia) ≡ false
    → Keeps IsIntact (
        insert_assessment
          (is_feeder_of parent.id type)
          (feeder_exists type)
          (new_feeder parent type ctx)
        >>= λ a. prefill_feeder parent rows a ctx)
inserted_feeder-IsIntact type parent rows ctx differs =
    insert_assessment-IsIntact (is_feeder_of parent.id type) (feeder_exists type)
      (new_feeder parent type ctx) (λ a. prefill_feeder parent rows a ctx)
      (λ n row. rw differs refl) (prefill_feeder-IsIntactWith parent rows ctx)

pub create_feeder-IsIntact :
    (parent_id : ℕ) (type : AssessmentType) (ctx : TenantContext)
    → Keeps IsIntact (create_feeder parent_id type ctx)
unfolding create_feeder
create_feeder-IsIntact parent_id AssessmentType.aiia ctx = record { at = λ db h. h }
create_feeder-IsIntact parent_id AssessmentType.fria ctx =
    let last = λ (p : Assessment) (rows : List AssessmentSectionTemplate).
      inserted_feeder-IsIntact AssessmentType.fria p rows ctx refl in
    search (keeps_rules, last) depth 20
create_feeder-IsIntact parent_id AssessmentType.dpia ctx =
    let last = λ (p : Assessment) (rows : List AssessmentSectionTemplate).
      inserted_feeder-IsIntact AssessmentType.dpia p rows ctx refl in
    search (keeps_rules, last) depth 20
create_feeder-IsIntact parent_id AssessmentType.model_risk ctx =
    let last = λ (p : Assessment) (rows : List AssessmentSectionTemplate).
      inserted_feeder-IsIntact AssessmentType.model_risk p rows ctx refl in
    search (keeps_rules, last) depth 20

-- The item that a section is answered by.
answer-IsIntactWith :
    (a : Assessment) (section_key : String) (response : Option String) (ctx : TenantContext)
    → Keeps (IsIntactWith a.id) (do
      assert_authoring_unlocked a.id
      tmpl ← read (find_template a section_key)
      item ← add_item (answered_item ctx a.id tmpl section_key response)
      stage_item_audit ctx "assessment_item.created" item.id
          (("section_key", Detail.text section_key) ∷ [])
      pure item)
unfolding assert_authoring_unlocked
answer-IsIntactWith a section_key response ctx =
    let added = λ (tmpl : AssessmentSectionTemplate).
      add_item-IsIntactWith a.id (answered_item ctx a.id tmpl section_key response) (λ n. refl) in
    let audited = stage_audit-IsIntactWith a.id in search (keeps_rules, added, audited) depth 20

pub create_item_from_section-IsIntact :
    (assessment_id : ℕ) (section_key : String) (response : Option String) (ctx : TenantContext)
    → Keeps IsIntact (create_item_from_section assessment_id section_key response ctx)
unfolding create_item_from_section
create_item_from_section-IsIntact assessment_id section_key response ctx =
    Keeps-read (load_assessment assessment_id ctx) _ λ a db loaded h.
      ((answer-IsIntactWith a section_key response ctx).at db
        (record { intact = h; present = load_assessment-has assessment_id ctx db a loaded })).intact

advance-IsIntact : (u : UseCase) (actor : ℕ) → Keeps IsIntact (advance_use_case u actor)
advance-IsIntact = advance_use_case-elsewhere IsIntact IsIntact-IsElsewhere

update_amended-IsIntact :
    (item_id expected : ℕ) (ctx : TenantContext) (patch : AssessmentItemAmend)
    (item : AssessmentItem) (authored : Bool)
    → Keeps IsIntact (update_amended item_id expected ctx (amended patch item authored))
unfolding update_amended
update_amended-IsIntact item_id expected ctx patch item authored =
    update_items-IsIntact (is_amendable item_id expected ctx) (amended patch item authored)
      stale_item (λ row. refl)

update_confirmed-IsIntact :
    (item_id expected : ℕ) (ctx : TenantContext)
    → Keeps IsIntact (update_confirmed item_id expected ctx)
unfolding update_confirmed
update_confirmed-IsIntact item_id expected ctx =
    update_items-IsIntact (is_confirmable item_id expected ctx) confirmed not_confirmable
      (λ row. refl)

ruleset authoring_rules = (
  keeps_rules, stage_audit-IsIntact, advance-IsIntact, insert_control_link-IsIntact,
  insert_evidence_link-IsIntact, update_amended-IsIntact, update_confirmed-IsIntact,
  without_item-IsIntact, without_assessment-IsIntact,
)

pub amend_item-IsIntact :
    (synchronised : Synchronised) (item_id : ℕ) (patch : AssessmentItemAmend) (expected : ℕ)
    (ctx : TenantContext)
    → Keeps IsIntact (amend_item synchronised item_id patch expected ctx)
unfolding amend_item assert_authoring_unlocked write_amendment after_treatment
amend_item-IsIntact synchronised item_id patch expected ctx = search authoring_rules depth 30

pub confirm_item-IsIntact :
    (item_id expected : ℕ) (ctx : TenantContext)
    → Keeps IsIntact (confirm_item item_id expected ctx)
unfolding confirm_item assert_authoring_unlocked
confirm_item-IsIntact item_id expected ctx = search authoring_rules depth 30

pub delete_item-IsIntact :
    (item_id : ℕ) (ctx : TenantContext) → Keeps IsIntact (delete_item item_id ctx)
unfolding delete_item
delete_item-IsIntact item_id ctx = search authoring_rules depth 20

pub delete_assessment-IsIntact :
    (id : ℕ) (ctx : TenantContext) → Keeps IsIntact (delete_assessment id ctx)
unfolding delete_assessment
delete_assessment-IsIntact id ctx = search authoring_rules depth 20

pub create_control_link-IsIntact :
    (item_id control_id : ℕ) (coverage : CoverageStatus) (ctx : TenantContext)
    → Keeps IsIntact (create_control_link item_id control_id coverage ctx)
unfolding create_control_link assert_authoring_unlocked
create_control_link-IsIntact item_id control_id coverage ctx = search authoring_rules depth 30

pub delete_control_link-IsIntact :
    (link_id : ℕ) (ctx : TenantContext) → Keeps IsIntact (delete_control_link link_id ctx)
unfolding delete_control_link
delete_control_link-IsIntact link_id ctx =
    let gone =
      λ (id : ℕ). modify_links-IsIntact (without_control_link id) (λ db. refl) (λ db. refl) in
    search (authoring_rules, gone) depth 20

pub create_evidence_link-IsIntact :
    (item_id evidence_id : ℕ) (ctx : TenantContext)
    → Keeps IsIntact (create_evidence_link item_id evidence_id ctx)
unfolding create_evidence_link assert_authoring_unlocked
create_evidence_link-IsIntact item_id evidence_id ctx = search authoring_rules depth 30

unlink_evidence-IsIntact :
    (item_id evidence_id : ℕ) (ctx : TenantContext) (found : Option AssessmentItemEvidence)
    → Keeps IsIntact (unlink_evidence item_id evidence_id ctx found)
unlink_evidence-IsIntact item_id evidence_id ctx none = search authoring_rules
unlink_evidence-IsIntact item_id evidence_id ctx (some link) =
    let gone = modify_links-IsIntact (without_evidence_link link.id) (λ db. refl) (λ db. refl) in
    search (authoring_rules, gone) depth 20

pub delete_evidence_link-IsIntact :
    (item_id evidence_id : ℕ) (ctx : TenantContext)
    → Keeps IsIntact (delete_evidence_link item_id evidence_id ctx)
unfolding delete_evidence_link
delete_evidence_link-IsIntact item_id evidence_id ctx =
    search (authoring_rules, unlink_evidence-IsIntact) depth 20
