-- ===== src/Coverage/Ladder.antt =====
-- The ladder of verdicts on a control (app/services/coverage_service.py): what raises one.
use aigov.Coverage.Matrix.{rollup_verdict}
use aigov.Model.Enums.Knowledge.{CoverageStatus, coverage_status_eq}
use aigov.Prelude.{
  Bool, Bool-cases, List, String, arith, contains, false, if◌then◌else◌, inl, inr, nat_eq, refl,
  string_eq, true, ℕ, ◌==◌, ◌||◌, ◌↔◌, ◌∷◌, ◌≡◌, ◌≤◌,
}

abbrev pub has : CoverageStatus → List CoverageStatus → Bool
has status coverages = contains status coverages

-- The second list says as much as the first, or more.
pub record IsBelow (xs ys : List CoverageStatus) : Type 0 where
  pub satisfied : has CoverageStatus.satisfied xs ≡ true → has CoverageStatus.satisfied ys ≡ true
  pub partial :
      (has CoverageStatus.satisfied xs || has CoverageStatus.partial xs) ≡ true
      → (has CoverageStatus.satisfied ys || has CoverageStatus.partial ys) ≡ true

pub IsBelow-keep :
    (x : CoverageStatus) (xs ys : List CoverageStatus) → IsBelow xs ys → IsBelow (x ∷ xs) (x ∷ ys)
IsBelow-keep x xs ys h = record {
  satisfied = λ s. ground (arith, h.satisfied);
  partial = λ s. ground (arith, h.partial);
}

pub IsBelow-raise :
    (xs ys : List CoverageStatus)
    → IsBelow xs ys
    → IsBelow (CoverageStatus.partial ∷ xs) (CoverageStatus.satisfied ∷ ys)
IsBelow-raise xs ys h = record { satisfied = λ s. refl; partial = λ s. refl }

pub IsBelow-extra :
    (y : CoverageStatus) (xs ys : List CoverageStatus) → IsBelow xs ys → IsBelow xs (y ∷ ys)
IsBelow-extra y xs ys h = record {
  satisfied = λ s. ground (arith, h.satisfied s);
  partial = λ s. ground (arith, h.partial s);
}

-- SATISFIED, PARTIAL and OPEN, from the strongest.
abbrev pub verdict_rank : String → ℕ
verdict_rank verdict = if verdict == "SATISFIED" then 2 else if verdict == "PARTIAL" then 1 else 0

verdict_rank-rollup_verdict :
    (coverages : List CoverageStatus)
    → verdict_rank (rollup_verdict coverages) ≡ (
        if has CoverageStatus.satisfied coverages
        then 2
        else if has CoverageStatus.partial coverages
        then 1
        else 0)
unfolding rollup_verdict
verdict_rank-rollup_verdict coverages = elim (Bool-cases (has CoverageStatus.satisfied coverages)) [
  | inl s ↦ rw s refl
  | inr s ↦ elim (Bool-cases (has CoverageStatus.partial coverages)) [
    | inl p ↦ rw (s, p) refl
    | inr p ↦ rw (s, p) refl
  ]
]

pub IsBelow-le :
    (xs ys : List CoverageStatus)
    → IsBelow xs ys
    → verdict_rank (rollup_verdict xs) ≤ verdict_rank (rollup_verdict ys)
IsBelow-le xs ys h =
    rw (verdict_rank-rollup_verdict xs, verdict_rank-rollup_verdict ys)
      (ground (arith, h.satisfied, h.partial))

pub rollup_verdict-satisfied :
    (coverages : List CoverageStatus)
    → (rollup_verdict coverages ≡ "SATISFIED") ↔ (has CoverageStatus.satisfied coverages ≡ true)
unfolding rollup_verdict
rollup_verdict-satisfied coverages = elim (Bool-cases (has CoverageStatus.satisfied coverages)) [
  | inl s ↦ rw s (λ h. refl, λ h. refl)
  | inr s ↦ elim (Bool-cases (has CoverageStatus.partial coverages)) [
    | inl p ↦ rw (s, p) (λ h. cc, λ h. cc)
    | inr p ↦ rw (s, p) (λ h. cc, λ h. cc)
  ]
]

pub rollup_verdict-open :
    (coverages : List CoverageStatus)
    → (rollup_verdict coverages ≡ "OPEN") ↔ (
        (has CoverageStatus.satisfied coverages ≡ false)
        × (has CoverageStatus.partial coverages ≡ false))
unfolding rollup_verdict
rollup_verdict-open coverages = elim (Bool-cases (has CoverageStatus.satisfied coverages)) [
  | inl s ↦ rw s (λ h. cc, λ h. cc)
  | inr s ↦ elim (Bool-cases (has CoverageStatus.partial coverages)) [
    | inl p ↦ rw (s, p) (λ h. cc, λ h. cc)
    | inr p ↦ rw (s, p) (λ h. (refl, refl), λ h. refl)
  ]
]
