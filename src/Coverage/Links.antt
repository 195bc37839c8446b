-- ===== src/Coverage/Links.antt =====
-- The links that count for coverage (app/services/coverage_service.py): the scope, the status of
-- the governing AIIA, and the substantiation by evidence.
use aigov.Model.Enums.Assessment.{
  AssessmentStatus, AssessmentType, ProvenanceConfidence, assessment_status_eq, assessment_type_eq,
  provenance_confidence_eq,
}
use aigov.Model.Enums.Knowledge.{CoverageStatus, coverage_status_eq}
use aigov.Model.Rows.Assessment.{Assessment, AssessmentItem, AssessmentItemControl}
use aigov.Model.Session.{Session, get_assessment}
use aigov.Prelude.{
  Bool, Error, List, Option, Result, String, [], any_row, contains, err, false, find?, holds, http,
  if◌then◌else◌, is_empty, is_some, join_rows, lit, map, nat_eq, none, not, ok, some, string_eq,
  true, value_error, where_rows, ℕ, ◌&&◌, ◌==◌, ◌||◌, ◌∷◌,
}

-- A condition on assessments, as it stands in the WHERE of the query.
abbrev pub ScopeClause : Type 0
ScopeClause = Assessment → Bool

abbrev pub scope_id_required : Error
scope_id_required = http 400 (lit "scope_id required" ∷ [])

abbrev pub in_system : ℕ → ℕ → Session → ScopeClause
in_system tenant_id scope_id db a =
    any_row
      (λ row. row.id == a.use_case_id && row.system_id == scope_id && row.tenant_id == tenant_id)
      db.use_cases

abbrev pub system_scope : ℕ → ℕ → Session → Result ScopeClause
system_scope tenant_id scope_id db =
    if any_row (λ row. row.id == scope_id && row.tenant_id == tenant_id) db.systems
    then ok (in_system tenant_id scope_id db)
    else err (http 404 (lit "System not found" ∷ []))

abbrev pub under_aiia : ℕ → ScopeClause
under_aiia scope_id a = a.id == scope_id || holds a.parent_aiia_id scope_id

abbrev pub aiia_scope : ℕ → Option Assessment → Result ScopeClause
aiia_scope scope_id none = err (http 404 (lit "Assessment not found" ∷ []))
aiia_scope scope_id (some aiia) =
    if aiia.type == AssessmentType.aiia
    then ok (under_aiia scope_id)
    else err (http 422 (lit "scope_id must be an AIIA assessment, not a feeder" ∷ []))

abbrev pub assessment_scope : ℕ → ℕ → Session → Result ScopeClause
assessment_scope tenant_id scope_id db =
    aiia_scope scope_id
      (find? (λ row. row.id == scope_id && row.tenant_id == tenant_id) db.assessments)

-- `if scope_id is None: raise ...`
abbrev pub with_scope_id : (ℕ → Result ScopeClause) → Option ℕ → Result ScopeClause
with_scope_id f none = err scope_id_required
with_scope_id f (some scope_id) = f scope_id

-- `_resolve_scope_clause`
unfoldable pub resolve_scope_clause : ℕ → String → Option ℕ → Session → Result ScopeClause
resolve_scope_clause tenant_id scope scope_id db =
    if scope == "tenant"
    then ok (λ a. a.tenant_id == tenant_id)
    else if scope == "system"
    then with_scope_id (λ id. system_scope tenant_id id db) scope_id
    else if scope == "assessment"
    then with_scope_id (λ id. assessment_scope tenant_id id db) scope_id
    else err value_error

-- A row of the joined query.
pub record LinkRow : Type 0 where
  pub item_id : ℕ
  pub control_id : ℕ
  pub coverage : CoverageStatus
  pub assessment_id : ℕ
  pub parent_aiia_id : Option ℕ
  pub own_status : AssessmentStatus
  pub parent_status : Option AssessmentStatus

-- The outer join with the parent.
abbrev pub parent_status_of : Session → Option ℕ → Option AssessmentStatus
parent_status_of db none = none
parent_status_of db (some parent_id) = elim (get_assessment db parent_id) [
  | none ↦ none
  | some parent ↦ some parent.status
]

abbrev pub link_row : Session → AssessmentItemControl → AssessmentItem → Assessment → LinkRow
link_row db link item a = record {
  item_id = link.item_id;
  control_id = link.control_id;
  coverage = link.coverage;
  assessment_id = a.id;
  parent_aiia_id = a.parent_aiia_id;
  own_status = a.status;
  parent_status = parent_status_of db a.parent_aiia_id;
}

abbrev pub is_decided : AssessmentItem → Bool
is_decided item = not (item.provenance == ProvenanceConfidence.ai_suggested)

unfoldable pub link_rows : ℕ → ScopeClause → Session → List LinkRow
link_rows tenant_id scope_clause db =
    join_rows
      (λ link.
        join_rows
          (λ item.
            map (link_row db link item)
              (where_rows (λ a. item.assessment_id == a.id && scope_clause a) db.assessments))
          (where_rows (λ item. link.item_id == item.id && is_decided item) db.items))
      (where_rows (λ link. link.tenant_id == tenant_id) db.item_controls)

abbrev pub default_allowed_statuses : List AssessmentStatus
default_allowed_statuses = AssessmentStatus.approved ∷ []

abbrev pub unapproved_allowed_statuses : List AssessmentStatus
unapproved_allowed_statuses =
    AssessmentStatus.approved ∷ AssessmentStatus.draft ∷ AssessmentStatus.needs_refresh ∷ []

abbrev pub allowed_statuses : Bool → List AssessmentStatus
allowed_statuses include_unapproved =
    if include_unapproved then unapproved_allowed_statuses else default_allowed_statuses

-- A link of the result, before it is substantiated.
pub record Link : Type 0 where
  pub item_id : ℕ
  pub assessment_id : ℕ
  pub control_id : ℕ
  pub coverage : CoverageStatus
  pub governing_status : AssessmentStatus

abbrev pub governing_status_of : LinkRow → Option AssessmentStatus
governing_status_of row =
    if is_some row.parent_aiia_id then row.parent_status else some row.own_status

abbrev pub link_governed_by : LinkRow → AssessmentStatus → Link
link_governed_by row status = record {
  item_id = row.item_id;
  assessment_id = row.assessment_id;
  control_id = row.control_id;
  coverage = row.coverage;
  governing_status = status;
}

-- One round of the loop over the rows.
abbrev pub qualify_as : List AssessmentStatus → LinkRow → Option AssessmentStatus → List Link
qualify_as allowed row none = []
qualify_as allowed row (some status) =
    if contains status allowed then link_governed_by row status ∷ [] else []

abbrev pub qualify : List AssessmentStatus → LinkRow → List Link
qualify allowed row = qualify_as allowed row (governing_status_of row)

-- `_fetch_qualifying_links`
unfoldable pub fetch_qualifying_links : ℕ → ScopeClause → Bool → Session → List Link
unfolding link_rows
fetch_qualifying_links tenant_id scope_clause include_unapproved db =
    join_rows (qualify (allowed_statuses include_unapproved)) (link_rows tenant_id scope_clause db)

-- A link with what the ladder and the breakdown read.
pub record EffectiveLink : Type 0 where
  pub link : Link
  pub effective_coverage : CoverageStatus
  pub downgraded : Bool

abbrev pub taken_as_is : Link → EffectiveLink
taken_as_is link = record { link = link; effective_coverage = link.coverage; downgraded = false }

abbrev pub is_satisfied : Link → Bool
is_satisfied link = link.coverage == CoverageStatus.satisfied

abbrev pub items_with_evidence : List Link → Session → List ℕ
items_with_evidence qualifying db =
    let satisfied_item_ids = map (λ link. link.item_id) (where_rows is_satisfied qualifying) in
    if is_empty satisfied_item_ids
    then []
    else map (λ row. row.item_id)
        (where_rows (λ row. contains row.item_id satisfied_item_ids) db.item_evidence)

abbrev pub substantiated : List ℕ → Link → EffectiveLink
substantiated backed link =
    if is_satisfied link && not (contains link.item_id backed)
    then record { link = link; effective_coverage = CoverageStatus.partial; downgraded = true }
    else taken_as_is link

-- `_apply_evidence_substantiation`
unfoldable pub apply_evidence_substantiation : List Link → Bool → Session → List EffectiveLink
apply_evidence_substantiation qualifying require_evidence db =
    if require_evidence
    then map (substantiated (items_with_evidence qualifying db)) qualifying
    else map taken_as_is qualifying
