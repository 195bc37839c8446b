-- ===== src/Coverage/Strictness.antt =====
-- A stricter reading never raises a verdict (app/services/coverage_service.py).
use aigov.Coverage.Counts.{links_of}
use aigov.Coverage.Evidence.{as_counted, has_evidence, links_in_play-as_counted}
use aigov.Coverage.Ladder.{
  IsBelow, IsBelow-extra, IsBelow-keep, IsBelow-le, IsBelow-raise, has, rollup_verdict-open,
  rollup_verdict-satisfied, verdict_rank,
}
use aigov.Coverage.Links.{
  EffectiveLink, Link, LinkRow, ScopeClause, default_allowed_statuses, fetch_qualifying_links,
  governing_status_of, is_satisfied, link_rows, qualify, qualify_as, unapproved_allowed_statuses,
}
use aigov.Coverage.Matrix.{links_in_play, rollup_verdict}
use aigov.Model.Enums.Assessment.{AssessmentStatus}
use aigov.Model.Enums.Knowledge.{CoverageStatus, coverage_status_eq}
use aigov.Model.Session.{Session}
use aigov.Prelude.{
  Bool, Bool-cases, List, Option, String, [], any_row, arith, false, inl, inr, join_rows, map,
  nat_eq, none, not, refl, some, string_eq, sym, true, ℕ, ◌&&◌, ◌++◌, ◌==◌, ◌↔◌, ◌∷◌, ◌≡◌, ◌≤◌, ◌⊎◌,
}

-- What the ladder reads of a control.
abbrev pub coverages_of : ℕ → List EffectiveLink → List CoverageStatus
coverages_of k links = map (λ e. e.effective_coverage) (links_of k links)

-- A link counts as recorded, or is downgraded.
as_counted-cases :
    (db : Session) (l : Link)
    → (as_counted true db l ≡ as_counted false db l)
      ⊎ ((as_counted true db l
            ≡ record { link = l; effective_coverage = CoverageStatus.partial; downgraded = true })
          × (l.coverage ≡ CoverageStatus.satisfied))
as_counted-cases db l = elim (Bool-cases (is_satisfied l && not (has_evidence db l.item_id))) [
  | inl h ↦ rw h (inr (refl, ground arith))
  | inr h ↦ rw h (inl refl)
]

as_counted-IsBelow :
    (k : ℕ) (db : Session) (links : List Link)
    → IsBelow
        (coverages_of k (map (as_counted true db) links))
        (coverages_of k (map (as_counted false db) links))
as_counted-IsBelow k db [] = record { satisfied = λ s. s; partial = λ s. s }
as_counted-IsBelow k db (l ∷ links) =
    let rest = as_counted-IsBelow k db links in
    elim (Bool-cases (l.control_id == k)) [
      | inl own ↦ elim (as_counted-cases db l) [
        | inl same ↦ rw (same, own) (IsBelow-keep l.coverage _ _ rest)
        | inr (down, satisfied) ↦ rw (down, own, satisfied) (IsBelow-raise _ _ rest)
      ]
      | inr other ↦ elim (as_counted-cases db l) [
        | inl same ↦ rw (same, other) rest
        | inr (down, satisfied) ↦ rw (down, other) rest
      ]
    ]

-- What the two settings make of a row: the same, or a link that only the wider one has.
qualify_as-cases :
    (row : LinkRow) (status : Option AssessmentStatus)
    → (qualify_as default_allowed_statuses row status
        ≡ qualify_as unapproved_allowed_statuses row status)
      ⊎ (qualify_as default_allowed_statuses row status ≡ [])
qualify_as-cases row none = inl refl
qualify_as-cases row (some AssessmentStatus.draft) = inr refl
qualify_as-cases row (some AssessmentStatus.in_review) = inl refl
qualify_as-cases row (some AssessmentStatus.approved) = inl refl
qualify_as-cases row (some AssessmentStatus.needs_refresh) = inr refl

module _ (k : ℕ) (count : Link → EffectiveLink) where
  IsBelow-append :
      (more xs ys : List Link)
      → IsBelow (coverages_of k (map count xs)) (coverages_of k (map count ys))
      → (IsBelow
          (coverages_of k (map count (more ++ xs)))
          (coverages_of k (map count (more ++ ys))))
        × IsBelow (coverages_of k (map count xs)) (coverages_of k (map count (more ++ ys)))
  IsBelow-append [] xs ys h = (h, h)
  IsBelow-append (l ∷ more) xs ys h =
      let (kept, extra) = IsBelow-append more xs ys h in
      elim (Bool-cases ((count l).link.control_id == k)) [
        | inl own ↦ (
          rw own (IsBelow-keep (count l).effective_coverage _ _ kept),
          rw own (IsBelow-extra (count l).effective_coverage _ _ extra),
        )
        | inr other ↦ (rw other kept, rw other extra)
      ]

  qualify-IsBelow :
      (rows : List LinkRow)
      → IsBelow
          (coverages_of k (map count (join_rows (qualify default_allowed_statuses) rows)))
          (coverages_of k (map count (join_rows (qualify unapproved_allowed_statuses) rows)))
  qualify-IsBelow [] = record { satisfied = λ s. s; partial = λ s. s }
  qualify-IsBelow (row ∷ rows) =
      let rest = qualify-IsBelow rows in
      let (kept, extra) = IsBelow-append (qualify unapproved_allowed_statuses row) _ _ rest in
      elim (qualify_as-cases row (governing_status_of row)) [
        | inl same ↦ rw same kept
        | inr less ↦ rw less extra
      ]

-- The verdict on a control, in the settings of a request.
abbrev pub verdict_on : ℕ → ℕ → ScopeClause → Bool → Bool → Session → String
verdict_on k tenant_id scope_clause include_unapproved require_evidence db =
    rollup_verdict
      (coverages_of k (links_in_play tenant_id scope_clause include_unapproved require_evidence db))

-- A link of the control counts with one of the statuses.
abbrev pub counts_as : ℕ → (CoverageStatus → Bool) → List EffectiveLink → Bool
counts_as k accepted links =
    any_row (λ e. e.link.control_id == k && accepted e.effective_coverage) links

has-counts_as :
    (k : ℕ) (status : CoverageStatus) (links : List EffectiveLink)
    → has status (coverages_of k links) ≡ counts_as k (λ c. c == status) links
has-counts_as k status [] = refl
has-counts_as k status (e ∷ links) =
    let rest = has-counts_as k status links in
    elim (Bool-cases (e.link.control_id == k)) [
      | inl own ↦ rw (own, rest) refl
      | inr other ↦ rw other rest
    ]

by_evidence :
    (k tenant_id : ℕ) (scope_clause : ScopeClause) (include_unapproved : Bool) (db : Session)
    → verdict_rank (verdict_on k tenant_id scope_clause include_unapproved true db)
      ≤ verdict_rank (verdict_on k tenant_id scope_clause include_unapproved false db)
by_evidence k tenant_id scope_clause include db =
    rw
      (
        links_in_play-as_counted tenant_id scope_clause include true db,
        links_in_play-as_counted tenant_id scope_clause include false db,
      )
      (IsBelow-le _ _
        (as_counted-IsBelow k db (fetch_qualifying_links tenant_id scope_clause include db)))

by_approval :
    (k tenant_id : ℕ) (scope_clause : ScopeClause) (require_evidence : Bool) (db : Session)
    → verdict_rank (verdict_on k tenant_id scope_clause false require_evidence db)
      ≤ verdict_rank (verdict_on k tenant_id scope_clause true require_evidence db)
unfolding fetch_qualifying_links
by_approval k tenant_id scope_clause require db =
    rw
      (
        links_in_play-as_counted tenant_id scope_clause false require db,
        links_in_play-as_counted tenant_id scope_clause true require db,
      )
      (IsBelow-le _ _
        (qualify-IsBelow k (as_counted require db) (link_rows tenant_id scope_clause db)))

-- The verdict on a control is SATISFIED exactly when a link of it counts as satisfied, and OPEN exactly
-- when none counts as satisfied or partial. To ask for evidence never raises it, with and without what
-- is not approved; and to leave out what is not approved never raises it, with and without the demand
-- for evidence: in the order OPEN, PARTIAL, SATISFIED the stricter setting gives at most what the wider
-- one gives.
pub links_in_play-le :
    (k tenant_id : ℕ) (scope_clause : ScopeClause) (include_unapproved require_evidence : Bool)
    (db : Session)
    → (((verdict_on k tenant_id scope_clause include_unapproved require_evidence db ≡ "SATISFIED")
          ↔ (counts_as k
                (λ c. c == CoverageStatus.satisfied)
                (links_in_play tenant_id scope_clause include_unapproved require_evidence db)
              ≡ true))
        × ((verdict_on k tenant_id scope_clause include_unapproved require_evidence db ≡ "OPEN") ↔ (
            (counts_as k
                (λ c. c == CoverageStatus.satisfied)
                (links_in_play tenant_id scope_clause include_unapproved require_evidence db)
              ≡ false)
            × (counts_as k
                  (λ c. c == CoverageStatus.partial)
                  (links_in_play tenant_id scope_clause include_unapproved require_evidence db)
                ≡ false))))
      × (verdict_rank (verdict_on k tenant_id scope_clause include_unapproved true db)
          ≤ verdict_rank (verdict_on k tenant_id scope_clause include_unapproved false db))
      × (verdict_rank (verdict_on k tenant_id scope_clause false require_evidence db)
          ≤ verdict_rank (verdict_on k tenant_id scope_clause true require_evidence db))
links_in_play-le k tenant_id scope_clause include require db =
    let links = links_in_play tenant_id scope_clause include require db in
    let s = has-counts_as k CoverageStatus.satisfied links in
    let p = has-counts_as k CoverageStatus.partial links in
    (
      (
        rw (sym s) (rollup_verdict-satisfied (coverages_of k links)),
        rw (sym s, sym p) (rollup_verdict-open (coverages_of k links)),
      ),
      by_evidence k tenant_id scope_clause include db,
      by_approval k tenant_id scope_clause require db,
    )
