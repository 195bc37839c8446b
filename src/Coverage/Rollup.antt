-- ===== src/Coverage/Rollup.antt =====
-- Every control of a matrix is rolled up from its own links
-- (app/services/coverage_service.py).
use aigov.Coverage.Counts.{IsGraded, IsRolledUp, apply-IsGraded, control_read-IsRolledUp, links_of}
use aigov.Coverage.Links.{EffectiveLink, ScopeClause, fetch_qualifying_links, resolve_scope_clause}
use aigov.Coverage.Matrix.{
  ControlCoverage, CoverageMatrix, compute_coverage, control_read, control_reads, control_round,
  coverage_matrix, links_in_play, load_controls,
}
use aigov.Model.Enums.Knowledge.{Framework}
use aigov.Model.Rows.Knowledge.{Control, ControlFrameworkMap}
use aigov.Model.Session.{Session}
use aigov.Prelude.{
  All, All-get_key, All-group_by, All-join_rows, All-map, All-of_map, All-where_rows, Bool, List,
  Option, Result, String, [], ap, contains, err, group_by, length, map, nat_eq, none, ok, refl,
  some, sym, where_rows, ℕ, ◌∙◌, ◌∷◌, ◌≡◌,
}
use mathlib.Core.Path.{subst}

-- A group of links of one control.
abbrev IsGroup : List EffectiveLink → ℕ × List EffectiveLink → Type 0
IsGroup links entry =
    (entry.1 ≡ links_of entry.0 links) × ((length entry.1 ≡ 0) → ⊥) × All IsGraded entry.1

abbrev pub IsOwn : List EffectiveLink → ControlCoverage → Type 0
IsOwn links cr = IsRolledUp (links_of cr.control_id links) cr

pub load_controls-keyed :
    (ids : List ℕ) (db : Session) → All (λ entry. entry.1.id ≡ entry.0) (load_controls ids db)
unfolding load_controls
load_controls-keyed [] db = tt
load_controls-keyed (i ∷ ids) db =
    All-of_map (λ entry. entry.1.id ≡ entry.0) _ (λ c. refl)
      (where_rows (λ c. contains c.id (i ∷ ids)) db.controls)

module _ (links : List EffectiveLink) where
  control_round-IsOwn :
      (entry : ℕ × List EffectiveLink) (found : Option Control)
      (kept : Option (List ControlFrameworkMap))
      → ((control : Control) → found ≡ some control → control.id ≡ entry.0)
      → IsGroup links entry
      → All (IsOwn links) (control_round entry.1 found kept)
  control_round-IsOwn entry none kept named h = tt
  control_round-IsOwn entry (some control) none named h = tt
  control_round-IsOwn entry (some control) (some mappings) named (group, filled, each) = (
    subst (λ own. IsRolledUp own (control_read control entry.1 mappings))
        (group ∙ ap (λ k. links_of k links) (sym (named control refl)))
        (control_read-IsRolledUp entry.1 each control mappings filled),
    tt,
  )

  control_reads-IsOwn :
      (framework : Option Framework) (by_control : List (ℕ × List EffectiveLink)) (db : Session)
      → All (IsGroup links) by_control
      → All (IsOwn links) (control_reads framework by_control db)
  unfolding control_reads
  control_reads-IsOwn framework by_control db all =
      All-join_rows (IsGroup links) (IsOwn links) _
        (λ entry h.
          control_round-IsOwn entry _ _
            (λ control found.
              All-get_key (λ (k : ℕ) (c : Control). c.id ≡ k) entry.0 _
                (load_controls-keyed (map (λ e. e.0) by_control) db) found)
            h)
        by_control all

  group_by-IsGroup :
      All IsGraded links → All (IsGroup links) (group_by (λ e. e.link.control_id) links)
  group_by-IsGroup each =
      All-map (λ entry. (entry.1 ≡ links_of entry.0 links) × ((length entry.1 ≡ 0) → ⊥))
        (IsGroup links)
        (λ entry h.
          (h.0, h.1, subst (All IsGraded) (sym h.0) (All-where_rows IsGraded _ links each)))
        (group_by (λ e. e.link.control_id) links) (All-group_by (λ e. e.link.control_id) links)

-- How the answer follows from the scope: an error is passed on.
abbrev pub Answers :
    (ScopeClause → List EffectiveLink) → Result ScopeClause → Result CoverageMatrix → Type 0
Answers links_in (ok scope_clause) (ok m) = All (IsOwn (links_in scope_clause)) m.controls
Answers links_in (err e) (err f) = e ≡ f
Answers links_in (ok scope_clause) (err f) = ⊥
Answers links_in (err e) (ok m) = ⊥

-- A matrix is returned exactly when the scope resolves; otherwise its error is. Each control of the
-- matrix is rolled up from the links of that control that qualify in the scope: there is one at
-- least, the breakdown counts each of them once and refers to them in order, and the verdict is
-- SATISFIED, PARTIAL or OPEN by what the breakdown counts.
pub compute_coverage-Answers :
    (tenant_id : ℕ) (scope : String) (scope_id : Option ℕ) (framework : Option Framework)
    (include_unapproved require_evidence : Bool) (db : Session)
    → Answers
        (λ scope_clause.
          links_in_play tenant_id scope_clause include_unapproved require_evidence db)
        (resolve_scope_clause tenant_id scope scope_id db)
        (compute_coverage tenant_id scope scope_id framework include_unapproved require_evidence db)
unfolding compute_coverage coverage_matrix
compute_coverage-Answers tenant_id scope scope_id framework include require_evidence db =
    go (resolve_scope_clause tenant_id scope scope_id db)
  where
    go :
        (r : Result ScopeClause)
        → Answers
            (λ scope_clause. links_in_play tenant_id scope_clause include require_evidence db)
            r
            (elim r [
              | err e ↦ err e
              | ok scope_clause ↦ ok (
                  coverage_matrix scope scope_id framework include
                    (links_in_play tenant_id scope_clause include require_evidence db)
                    db)
            ])
    go (err e) = refl
    go (ok scope_clause) =
        let links = links_in_play tenant_id scope_clause include require_evidence db in
        control_reads-IsOwn links framework (group_by (λ e. e.link.control_id) links) db (
          group_by-IsGroup links (
            unfold links_in_play in
            apply-IsGraded (fetch_qualifying_links tenant_id scope_clause include db)
              require_evidence db))
