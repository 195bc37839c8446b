-- ===== src/Coverage/Counts.antt =====
-- The breakdown of a control counts its links, and its verdict is read off the breakdown
-- (app/services/coverage_service.py).
use aigov.Coverage.Links.{
  EffectiveLink, Link, apply_evidence_substantiation, is_satisfied, items_with_evidence,
  substantiated,
}
use aigov.Coverage.Matrix.{
  ControlCoverage, build_breakdown, contributing_ref, control_read, rollup_verdict,
}
use aigov.Model.Enums.Knowledge.{CoverageStatus, coverage_status_eq}
use aigov.Model.Rows.Knowledge.{Control, ControlFrameworkMap}
use aigov.Model.Session.{Session}
use aigov.Prelude.{
  All, All-of_map, Bool, Bool-cases, List, String, [], arith, contains, false, if◌then◌else◌, inl,
  inr, length, ltb, map, nat_eq, not, refl, string_eq, suc, true, where_rows, ℕ, ◌&&◌, ◌+◌, ◌<◌,
  ◌==◌, ◌↔◌, ◌∷◌, ◌≡◌, ◌⊎◌,
}

abbrev pub links_of : ℕ → List EffectiveLink → List EffectiveLink
links_of control_id links = where_rows (λ e. e.link.control_id == control_id) links

-- A link stands as it was recorded, or is downgraded from SATISFIED to PARTIAL.
abbrev pub IsGraded : EffectiveLink → Type 0
IsGraded e =
    ((e.downgraded ≡ false) × (e.effective_coverage ≡ e.link.coverage))
    ⊎ ((e.downgraded ≡ true)
        × (e.effective_coverage ≡ CoverageStatus.partial)
        × (e.link.coverage ≡ CoverageStatus.satisfied))

substantiated-IsGraded : (backed : List ℕ) (link : Link) → IsGraded (substantiated backed link)
substantiated-IsGraded backed link =
    elim (Bool-cases (is_satisfied link && not (contains link.item_id backed))) [
      | inl h ↦ rw h (inr (refl, refl, ground arith))
      | inr h ↦ rw h (inl (refl, refl))
    ]

pub apply-IsGraded :
    (links : List Link) (require_evidence : Bool) (db : Session)
    → All IsGraded (apply_evidence_substantiation links require_evidence db)
unfolding apply_evidence_substantiation
apply-IsGraded links true db =
    All-of_map IsGraded _ (substantiated-IsGraded (items_with_evidence links db)) links
apply-IsGraded links false db = All-of_map IsGraded _ (λ link. inl (refl, refl)) links

tally :
    (e : EffectiveLink) (links : List EffectiveLink)
    → IsGraded e
    → (let b = build_breakdown links in
        let c = build_breakdown (e ∷ links) in
        c.satisfied + c.partial + c.opened + c.downgraded_unsubstantiated
        ≡ suc (b.satisfied + b.partial + b.opened + b.downgraded_unsubstantiated))
unfolding build_breakdown
tally e links h = ground arith

pub build_breakdown-counts :
    (links : List EffectiveLink)
    → All IsGraded links
    → let b = build_breakdown links in
      b.satisfied + b.partial + b.opened + b.downgraded_unsubstantiated ≡ length links
build_breakdown-counts [] h = unfold build_breakdown in omega arith
build_breakdown-counts (e ∷ links) h =
    omega (arith, tally e links h.0, build_breakdown-counts links h.1)

pub contains-satisfied :
    (links : List EffectiveLink)
    → All IsGraded links
    → contains CoverageStatus.satisfied (map (λ e. e.effective_coverage) links)
      ≡ ltb 0 (build_breakdown links).satisfied
unfolding build_breakdown
contains-satisfied [] h = refl
contains-satisfied (e ∷ links) h = ground (arith, contains-satisfied links h.1)

pub contains-partial :
    (links : List EffectiveLink)
    → All IsGraded links
    → contains CoverageStatus.partial (map (λ e. e.effective_coverage) links)
      ≡ ltb 0 ((build_breakdown links).partial + (build_breakdown links).downgraded_unsubstantiated)
unfolding build_breakdown
contains-partial [] h = refl
contains-partial (e ∷ links) h = ground (arith, contains-partial links h.1)

abbrev pub ladder : Bool → Bool → String
ladder x y = if x then "SATISFIED" else if y then "PARTIAL" else "OPEN"

unequal : (s t : String) → (s == t) ≡ false → s ≡ t → ⊥
unequal s t h e = let same = (string_eq.beq_iff s t).1 e in cc

ladder-satisfied : (x y : Bool) → (ladder x y ≡ "SATISFIED") ↔ (x ≡ true)
ladder-satisfied true y = (λ h. refl, λ h. refl)
ladder-satisfied false true = (λ h. absurd (unequal "PARTIAL" "SATISFIED" refl h), λ h. cc)
ladder-satisfied false false = (λ h. absurd (unequal "OPEN" "SATISFIED" refl h), λ h. cc)

ladder-partial : (x y : Bool) → (ladder x y ≡ "PARTIAL") ↔ ((x ≡ false) × (y ≡ true))
ladder-partial true y = (λ h. absurd (unequal "SATISFIED" "PARTIAL" refl h), λ h. cc)
ladder-partial false true = (λ h. (refl, refl), λ h. refl)
ladder-partial false false = (λ h. absurd (unequal "OPEN" "PARTIAL" refl h), λ h. cc)

ladder-open : (x y : Bool) → (ladder x y ≡ "OPEN") ↔ ((x ≡ false) × (y ≡ false))
ladder-open true y = (λ h. absurd (unequal "SATISFIED" "OPEN" refl h), λ h. cc)
ladder-open false true = (λ h. absurd (unequal "PARTIAL" "OPEN" refl h), λ h. cc)
ladder-open false false = (λ h. (refl, refl), λ h. refl)

-- What the matrix says of a control agrees with the links that are its own.
pub record IsRolledUp (own : List EffectiveLink) (cr : ControlCoverage) : Type 0 where
  pub in_play : 0 < length own
  pub counted :
      cr.breakdown.satisfied + cr.breakdown.partial + cr.breakdown.opened
        + cr.breakdown.downgraded_unsubstantiated
      ≡ length own
  pub referred : cr.breakdown.contributing_refs ≡ map contributing_ref own
  pub when_satisfied : (cr.verdict ≡ "SATISFIED") ↔ (0 < cr.breakdown.satisfied)
  pub when_partial : (cr.verdict ≡ "PARTIAL") ↔ (
      (cr.breakdown.satisfied ≡ 0)
      × (0 < cr.breakdown.partial + cr.breakdown.downgraded_unsubstantiated))
  pub when_open : (cr.verdict ≡ "OPEN") ↔ (cr.breakdown.opened ≡ length own)

module _ (links : List EffectiveLink) (each : All IsGraded links) where
  pub rollup_verdict-ladder :
      rollup_verdict (map (λ e. e.effective_coverage) links)
      ≡ ladder (ltb 0 (build_breakdown links).satisfied) (
          ltb 0
            ((build_breakdown links).partial + (build_breakdown links).downgraded_unsubstantiated))
  unfolding rollup_verdict
  rollup_verdict-ladder = rw (contains-satisfied links each, contains-partial links each)

  pub control_read-IsRolledUp :
      (control : Control) (mappings : List ControlFrameworkMap)
      → ((length links ≡ 0) → ⊥)
      → IsRolledUp links (control_read control links mappings)
  control_read-IsRolledUp control mappings filled =
      let b = build_breakdown links in
      let x = ltb 0 b.satisfied in
      let y = ltb 0 (b.partial + b.downgraded_unsubstantiated) in
      let total = build_breakdown-counts links each in
      record {
        in_play = ground arith;
        counted = total;
        referred = unfold build_breakdown in refl;
        when_satisfied = rw rollup_verdict-ladder (ground (arith, ladder-satisfied x y));
        when_partial = rw rollup_verdict-ladder (ground (arith, ladder-partial x y));
        when_open = rw rollup_verdict-ladder (ground (arith, ladder-open x y));
      }
