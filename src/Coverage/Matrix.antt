-- ===== src/Coverage/Matrix.antt =====
-- The matrix of controls, clauses and unaddressed controls (app/services/coverage_service.py).
use aigov.Coverage.Links.{
  EffectiveLink, ScopeClause, apply_evidence_substantiation, fetch_qualifying_links,
  resolve_scope_clause,
}
use aigov.Model.Enums.Assessment.{AssessmentStatus}
use aigov.Model.Enums.Knowledge.{CoverageStatus, Framework, coverage_status_eq, framework_eq}
use aigov.Model.Rows.Knowledge.{Control, ControlFrameworkMap}
use aigov.Model.Session.{Session}
use aigov.Prelude.{
  Bool, List, Option, Result, String, [], any_row, contains, err, get_group, get_key, group_by,
  if◌then◌else◌, is_empty, join_rows, length, map, nat_eq, none, not, ok, pair_eq, some, string_eq,
  true, where_rows, ℕ, ◌&&◌, ◌==◌, ◌∷◌,
}

pub record ContributingRef : Type 0 where
  pub item_id : ℕ
  pub assessment_id : ℕ
  pub governing_status : AssessmentStatus

pub record CoverageBreakdown : Type 0 where
  pub satisfied : ℕ
  pub partial : ℕ
  pub opened : ℕ
  pub downgraded_unsubstantiated : ℕ
  pub contributing_refs : List ContributingRef

pub record FrameworkMapping : Type 0 where
  pub framework : Framework
  pub clause_ref : String

pub record ControlCoverage : Type 0 where
  pub control_id : ℕ
  pub code : String
  pub title : String
  pub verdict : String
  pub breakdown : CoverageBreakdown
  pub framework_mappings : List FrameworkMapping

pub record FrameworkClauseCoverage : Type 0 where
  pub framework : Framework
  pub clause_ref : String
  pub verdict : String
  pub control_ids : List ℕ

pub record UnaddressedControl : Type 0 where
  pub control_id : ℕ
  pub code : String
  pub title : String
  pub framework_mappings : List FrameworkMapping

pub record CoverageMatrix : Type 0 where
  pub scope : String
  pub scope_id : Option ℕ
  pub framework_filter : Option Framework
  pub include_unapproved : Bool
  pub controls : List ControlCoverage
  pub frameworks : List FrameworkClauseCoverage
  pub unaddressed_controls : List UnaddressedControl
  pub not_an_obligation_set : Bool
  pub generated_at : ℕ

-- `_rollup_verdict`
unfoldable pub rollup_verdict : List CoverageStatus → String
rollup_verdict coverages =
    if contains CoverageStatus.satisfied coverages
    then "SATISFIED"
    else if contains CoverageStatus.partial coverages
    then "PARTIAL"
    else "OPEN"

abbrev pub count_rows {ℓ} : {A : Type ℓ} → (A → Bool) → List A → ℕ
count_rows p rows = length (where_rows p rows)

abbrev pub contributing_ref : EffectiveLink → ContributingRef
contributing_ref e = record {
  item_id = e.link.item_id;
  assessment_id = e.link.assessment_id;
  governing_status = e.link.governing_status;
}

-- `_build_breakdown`
unfoldable pub build_breakdown : List EffectiveLink → CoverageBreakdown
build_breakdown links = record {
  satisfied =
      count_rows (λ e. e.link.coverage == CoverageStatus.satisfied && not e.downgraded) links;
  partial = count_rows (λ e. e.link.coverage == CoverageStatus.partial) links;
  opened = count_rows (λ e. e.link.coverage == CoverageStatus.opened) links;
  downgraded_unsubstantiated = count_rows (λ e. e.downgraded) links;
  contributing_refs = map contributing_ref links;
}

-- `_load_controls`
unfoldable pub load_controls : List ℕ → Session → List (ℕ × Control)
load_controls control_ids db =
    if is_empty control_ids
    then []
    else map (λ c. (c.id, c)) (where_rows (λ c. contains c.id control_ids) db.controls)

-- `_load_framework_maps`
unfoldable pub load_framework_maps : List ℕ → Session → List (ℕ × List ControlFrameworkMap)
load_framework_maps control_ids db =
    if is_empty control_ids
    then []
    else group_by (λ m. m.control_id)
        (where_rows (λ m. contains m.control_id control_ids) db.framework_maps)

-- The mappings that the filter leaves, or nothing where the control is skipped.
abbrev pub kept_mappings :
    Option Framework → List ControlFrameworkMap → Option (List ControlFrameworkMap)
kept_mappings none mappings = some mappings
kept_mappings (some framework) mappings =
    let kept = where_rows (λ m. m.framework == framework) mappings in
    if is_empty kept then none else some kept

abbrev pub framework_mapping : ControlFrameworkMap → FrameworkMapping
framework_mapping m = record { framework = m.framework; clause_ref = m.clause_ref }

abbrev pub control_read : Control → List EffectiveLink → List ControlFrameworkMap → ControlCoverage
control_read control links mappings = record {
  control_id = control.id;
  code = control.code;
  title = control.title;
  verdict = rollup_verdict (map (λ e. e.effective_coverage) links);
  breakdown = build_breakdown links;
  framework_mappings = map framework_mapping mappings;
}

-- One round of the loop over the controls in play.
abbrev pub control_round :
    List EffectiveLink → Option Control → Option (List ControlFrameworkMap) → List ControlCoverage
control_round links none kept = []
control_round links (some control) none = []
control_round links (some control) (some mappings) = control_read control links mappings ∷ []

unfoldable pub control_reads :
    Option Framework → List (ℕ × List EffectiveLink) → Session → List ControlCoverage
unfolding load_controls load_framework_maps rollup_verdict build_breakdown
control_reads framework by_control db =
    let in_play = map (λ entry. entry.0) by_control in
    join_rows
      (λ entry.
        control_round entry.1 (get_key entry.0 (load_controls in_play db))
          (kept_mappings framework (get_group entry.0 (load_framework_maps in_play db))))
      by_control

-- A control that is mapped to a clause, with its verdict.
pub record ClauseMention : Type 0 where
  pub clause : Framework × String
  pub control_id : ℕ
  pub verdict : String

abbrev pub clause_mention : ControlCoverage → FrameworkMapping → ClauseMention
clause_mention cr m = record {
  clause = (m.framework, m.clause_ref);
  control_id = cr.control_id;
  verdict = cr.verdict;
}

abbrev pub clause_verdict : List String → String
clause_verdict verdicts =
    if contains "SATISFIED" verdicts
    then "SATISFIED"
    else if contains "PARTIAL" verdicts
    then "PARTIAL"
    else "OPEN"

abbrev pub clause_coverage : (Framework × String) × List ClauseMention → FrameworkClauseCoverage
clause_coverage entry = record {
  framework = entry.0.0;
  clause_ref = entry.0.1;
  verdict = clause_verdict (map (λ mention. mention.verdict) entry.1);
  control_ids = map (λ mention. mention.control_id) entry.1;
}

abbrev pub clause_mentions : List ControlCoverage → List ClauseMention
clause_mentions reads = join_rows (λ cr. map (clause_mention cr) cr.framework_mappings) reads

-- `_build_clause_axis`
unfoldable pub build_clause_axis : List ControlCoverage → List FrameworkClauseCoverage
build_clause_axis reads =
    map clause_coverage (group_by (λ mention. mention.clause) (clause_mentions reads))

-- The join with the framework's mappings, each control once.
abbrev pub maps_to : Option Framework → Session → ℕ → Bool
maps_to none db control_id = true
maps_to (some framework) db control_id =
    any_row (λ m. m.control_id == control_id && m.framework == framework) db.framework_maps

abbrev pub unaddressed_read : List (ℕ × List ControlFrameworkMap) → Control → UnaddressedControl
unaddressed_read maps c = record {
  control_id = c.id;
  code = c.code;
  title = c.title;
  framework_mappings = map framework_mapping (get_group c.id maps);
}

-- `_build_unaddressed`
unfoldable pub build_unaddressed : List ℕ → Option Framework → Session → List UnaddressedControl
unfolding load_framework_maps
build_unaddressed in_play framework db =
    let controls =
      where_rows (λ c. not (contains c.id in_play) && maps_to framework db c.id) db.controls in
    map (unaddressed_read (load_framework_maps (map (λ c. c.id) controls) db)) controls

-- The links of each control that is in play.
unfoldable pub links_in_play : ℕ → ScopeClause → Bool → Bool → Session → List EffectiveLink
unfolding fetch_qualifying_links apply_evidence_substantiation
links_in_play tenant_id scope_clause include_unapproved require_evidence db =
    apply_evidence_substantiation
      (fetch_qualifying_links tenant_id scope_clause include_unapproved db) require_evidence db

unfoldable pub coverage_matrix :
    String → Option ℕ → Option Framework → Bool → List EffectiveLink → Session → CoverageMatrix
unfolding control_reads build_clause_axis build_unaddressed
coverage_matrix scope scope_id framework include_unapproved links db =
    let by_control = group_by (λ e. e.link.control_id) links in
    let reads = control_reads framework by_control db in
    record {
      scope = scope;
      scope_id = scope_id;
      framework_filter = framework;
      include_unapproved = include_unapproved;
      controls = reads;
      frameworks = build_clause_axis reads;
      unaddressed_controls = build_unaddressed (map (λ entry. entry.0) by_control) framework db;
      not_an_obligation_set = true;
      generated_at = db.now;
    }

-- `compute_coverage`
unfoldable pub compute_coverage :
    ℕ → String → Option ℕ → Option Framework → Bool → Bool → Session → Result CoverageMatrix
unfolding resolve_scope_clause links_in_play coverage_matrix
compute_coverage tenant_id scope scope_id framework include_unapproved require_evidence db =
    elim (resolve_scope_clause tenant_id scope scope_id db) [
      | err e ↦ err e
      | ok scope_clause ↦ ok (
          coverage_matrix scope scope_id framework include_unapproved
            (links_in_play tenant_id scope_clause include_unapproved require_evidence db) db)
    ]
