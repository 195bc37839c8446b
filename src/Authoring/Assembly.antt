-- ===== src/Authoring/Assembly.antt =====
-- The items of an AIIA as they are shown, those that its feeders surface included, and the
-- recommendations of feeders (app/services/assessment_service.py).
use aigov.Authoring.Sections.{items_of}
use aigov.Gates.Feeders.{FeederRecommendation, feeder_recommendations_for}
use aigov.Lifecycle.Target.{target}
use aigov.Model.Enums.Assessment.{AssessmentType, assessment_type_eq}
use aigov.Model.Enums.Lifecycle.{eu_ai_act_tier_eq}
use aigov.Model.Rows.Assessment.{Assessment, AssessmentItem, AssessmentItemControl}
use aigov.Model.Rows.Knowledge.{AssessmentSectionTemplate, Evidence}
use aigov.Model.Session.{Session, TenantContext}
use aigov.Prelude.{
  List, Option, Result, String, [], contains, dict_onto, err, get_group, get_key, group_by, holds,
  http, if◌then◌else◌, is_empty, join_rows, lit, map, nat_eq, none, not, ok, some, string_eq,
  where_rows, ℕ, ◌&&◌, ◌++◌, ◌==◌, ◌∷◌,
}
use aigov.Review.{load_assessment}

pub record ItemEvidenceRead : Type 0 where
  pub evidence_id : ℕ
  pub title : String
  pub sha256 : String
  pub content_type : Option String
  pub size_bytes : ℕ

-- The columns of the item as they are validated, the section as it is shown, and what is attached.
pub record AssessmentItemRead : Type 0 where
  pub item : AssessmentItem
  pub source_assessment_id : Option ℕ
  pub source_type : Option AssessmentType
  pub control_links : List AssessmentItemControl
  pub evidence_links : List ItemEvidenceRead

-- `_batch_control_links`
unfoldable pub batch_control_links : Session → List ℕ → List (ℕ × List AssessmentItemControl)
batch_control_links db item_ids =
    if is_empty item_ids
    then []
    else group_by (λ link. link.item_id)
        (where_rows (λ link. contains link.item_id item_ids) db.item_controls)

abbrev pub evidence_read : Evidence → ItemEvidenceRead
evidence_read e = record {
  evidence_id = e.id;
  title = e.title;
  sha256 = e.sha256;
  content_type = e.content_type;
  size_bytes = e.size_bytes;
}

-- The rows of the join with the evidence.
abbrev pub evidence_rows : Session → List ℕ → List (ℕ × ItemEvidenceRead)
evidence_rows db item_ids =
    join_rows
      (λ link.
        map (λ e. (link.item_id, evidence_read e))
          (where_rows (λ e. e.id == link.evidence_id) db.evidence))
      (where_rows (λ link. contains link.item_id item_ids) db.item_evidence)

-- `_batch_evidence_links`
unfoldable pub batch_evidence_links : Session → List ℕ → List (ℕ × List (ℕ × ItemEvidenceRead))
batch_evidence_links db item_ids =
    if is_empty item_ids then [] else group_by (λ row. row.0) (evidence_rows db item_ids)

-- An item before the links are attached, with the feeder that surfaces it.
abbrev pub native_read : AssessmentItem → AssessmentItemRead
native_read item = record {
  item = item;
  source_assessment_id = none;
  source_type = none;
  control_links = [];
  evidence_links = [];
}

abbrev pub surfaced_read : Assessment → String → AssessmentItem → AssessmentItemRead
surfaced_read feeder target item = record {
  item = record item { section_key = some target };
  source_assessment_id = some feeder.id;
  source_type = some feeder.type;
  control_links = [];
  evidence_links = [];
}

abbrev pub target_entry : AssessmentSectionTemplate → List (String × String)
target_entry tmpl = elim tmpl.aiia_target_section_key [
  | none ↦ []
  | some target ↦ (tmpl.section_key, target) ∷ []
]

-- `target_by_section_key`
abbrev pub targets_of : Assessment → Session → List (String × String)
targets_of feeder db = dict_onto [] (
    join_rows target_entry (
      where_rows (λ tmpl. tmpl.type == feeder.type && tmpl.tier == feeder.tier_snapshot)
        db.section_templates))

-- The target of an item's section, where it has one.
abbrev pub target_for : List (String × String) → Option String → Option String
target_for targets none = none
target_for targets (some key) = get_key key targets

abbrev pub surfaced_as : Assessment → AssessmentItem → Option String → List AssessmentItemRead
surfaced_as feeder item none = []
surfaced_as feeder item (some target) = surfaced_read feeder target item ∷ []

-- The round of the loop over the feeders.
abbrev pub surfaced_by : Session → Assessment → List AssessmentItemRead
surfaced_by db feeder =
    let targets = targets_of feeder db in
    if is_empty targets
    then []
    else join_rows (λ item. surfaced_as feeder item (target_for targets item.section_key))
        (items_of feeder.id db)

abbrev pub feeders_of : Assessment → Session → List Assessment
feeders_of parent db = where_rows (λ row. holds row.parent_aiia_id parent.id) db.assessments

abbrev pub attach_links :
    List (ℕ × List AssessmentItemControl)
    → List (ℕ × List (ℕ × ItemEvidenceRead))
    → AssessmentItemRead
    → AssessmentItemRead
attach_links ctrl evid shown = record shown {
  control_links = get_group shown.item.id ctrl;
  evidence_links = map (λ row. row.1) (get_group shown.item.id evid);
}

abbrev pub with_links : Session → List AssessmentItemRead → List AssessmentItemRead
with_links db pairs =
    let item_ids = map (λ shown. shown.item.id) pairs in
    map (attach_links (batch_control_links db item_ids) (batch_evidence_links db item_ids)) pairs

unfoldable pub assemble_aiia_items : Assessment → Session → List AssessmentItemRead
unfolding batch_control_links batch_evidence_links
assemble_aiia_items parent db =
    let native = map native_read (items_of parent.id db) in
    if not (parent.type == AssessmentType.aiia)
    then with_links db native
    else with_links db (native ++ join_rows (surfaced_by db) (feeders_of parent db))

unfoldable pub get_feeder_recommendations :
    ℕ → TenantContext → Session → Result (List FeederRecommendation)
unfolding load_assessment feeder_recommendations_for
get_feeder_recommendations aiia_id ctx db = elim (load_assessment aiia_id ctx db) [
  | err e ↦ err e
  | ok parent ↦
      if parent.type == AssessmentType.aiia
      then ok (feeder_recommendations_for parent db)
      else err (http 422 (lit "Feeder recommendations apply to an AIIA, not a feeder" ∷ []))
]
