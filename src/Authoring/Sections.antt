-- ===== src/Authoring/Sections.antt =====
-- The sections of an assessment and the items made from them (app/services/assessment_service.py).
use aigov.Authoring.Rows.{add_item, new_item}
use aigov.Items.{assert_authoring_unlocked, stage_item_audit}
use aigov.Model.Enums.Assessment.{
  AssessmentType, ProvenanceConfidence, SectionApplicability, assessment_type_eq,
}
use aigov.Model.Enums.Lifecycle.{EuAiActTier, eu_ai_act_tier_eq}
use aigov.Model.Rows.Assessment.{Assessment, AssessmentItem}
use aigov.Model.Rows.Knowledge.{AssessmentSectionTemplate}
use aigov.Model.Rows.Lifecycle.{Detail}
use aigov.Model.Session.{Session, TenantContext}
use aigov.Prelude.{
  Bool, Error, Exec, List, Message, Option, Result, String, [], err, find?, get_key, http,
  if◌then◌else◌, is_some, lit, map, nat_eq, none, ok, or_error, order_by, pure, read, some,
  string_eq, where_rows, ℕ, ◌&&◌, ◌++◌, ◌==◌, ◌>>=◌, ◌>>◌, ◌||◌, ◌∷◌,
}
use aigov.Review.{load_assessment}

-- The template rows of a type and a tier, in their order.
unfoldable pub templates_for :
    AssessmentType → EuAiActTier → Session → List AssessmentSectionTemplate
templates_for type tier db =
    order_by (λ tmpl. tmpl.sort_order)
      (where_rows (λ tmpl. tmpl.type == type && tmpl.tier == tier) db.section_templates)

pub record SectionRead : Type 0 where
  pub section_key : String
  pub title : String
  pub applicability : SectionApplicability
  pub prompt : Option Message
  pub iso_42005_clause : Option String
  pub instantiated : Bool
  pub item_id : Option ℕ

-- One round of the loop over the items: the first item of each section.
abbrev pub note_first : List (String × ℕ) → ℕ → Option String → List (String × ℕ)
note_first d item_id none = d
note_first d item_id (some key) =
    if key == "" || is_some (get_key key d) then d else d ++ (key, item_id) ∷ []

unfoldable pub first_item_by_section : List (String × ℕ) → List AssessmentItem → List (String × ℕ)
first_item_by_section d [] = d
first_item_by_section d (item ∷ items) =
    first_item_by_section (note_first d item.id item.section_key) items

abbrev pub section_read : List (String × ℕ) → AssessmentSectionTemplate → SectionRead
section_read first tmpl = record {
  section_key = tmpl.section_key;
  title = tmpl.title;
  applicability = tmpl.applicability;
  prompt = tmpl.prompt;
  iso_42005_clause = tmpl.iso_42005_clause;
  instantiated = is_some (get_key tmpl.section_key first);
  item_id = get_key tmpl.section_key first;
}

abbrev pub items_of : ℕ → Session → List AssessmentItem
items_of assessment_id db = where_rows (λ item. item.assessment_id == assessment_id) db.items

unfoldable pub list_sections : ℕ → TenantContext → Session → Result (List SectionRead)
unfolding load_assessment templates_for first_item_by_section
list_sections assessment_id ctx db = elim (load_assessment assessment_id ctx db) [
  | err e ↦ err e
  | ok assessment ↦ ok (
      map (section_read (first_item_by_section [] (items_of assessment.id db)))
        (templates_for assessment.type assessment.tier_snapshot db))
]

abbrev pub unknown_section : String → Error
unknown_section section_key =
    http 422
      (lit "Unknown section_key '" ∷ lit section_key ∷ lit "' for this assessment's tier" ∷ [])

abbrev pub find_template : Assessment → String → Session → Result AssessmentSectionTemplate
find_template assessment section_key db = or_error (unknown_section section_key) (
    find?
      (λ tmpl.
        tmpl.type == assessment.type
        && tmpl.tier == assessment.tier_snapshot
        && tmpl.section_key == section_key)
      db.section_templates)

-- An answered section is the user's own, a blank one the catalogue's.
abbrev pub provenance_of_response : Option String → ProvenanceConfidence
provenance_of_response response =
    if is_some response
    then ProvenanceConfidence.user_amended
    else ProvenanceConfidence.catalogue_curated

abbrev pub answered_item :
    TenantContext → ℕ → AssessmentSectionTemplate → String → Option String → ℕ → AssessmentItem
answered_item ctx assessment_id tmpl section_key response id =
    record (new_item id ctx assessment_id section_key (provenance_of_response response)) {
      prompt = tmpl.prompt;
      response = response;
      created_by = some ctx.user_id;
    }

unfoldable pub create_item_from_section :
    ℕ → String → Option String → TenantContext → Exec Session AssessmentItem
unfolding load_assessment assert_authoring_unlocked
create_item_from_section assessment_id section_key response ctx = do
  assessment ← read (load_assessment assessment_id ctx)
  assert_authoring_unlocked assessment.id
  tmpl ← read (find_template assessment section_key)
  item ← add_item (answered_item ctx assessment.id tmpl section_key response)
  stage_item_audit ctx "assessment_item.created" item.id
      (("section_key", Detail.text section_key) ∷ [])
  pure item
