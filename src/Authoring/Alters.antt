-- ===== src/Authoring/Alters.antt =====
-- Which fields of a patch alter an item (app/services/assessment_service.py).
use aigov.Authoring.Amend.{
  AssessmentItemAmend, authoring_changes, change_of, differs, set_if, show_decision,
  treatment_changes,
}
use aigov.Model.Enums.Assessment.{provenance_confidence_eq, treatment_decision_eq}
use aigov.Model.Rows.Assessment.{AssessmentItem}
use aigov.Model.Rows.Lifecycle.{Detail}
use aigov.Prelude.{
  Bool, Bool-cases, Eq, List, Option, String, ap, arith, false, holds, inl, inr, is_empty, nat_eq,
  none, not, refl, some, some_eq, string_eq, sym, true, ◌&&◌, ◌++◌, ◌||◌, ◌∙◌, ◌≡◌, ◌≢◌, ◌⊎◌,
}

module _ {A : Type 0} where
  -- A field of the patch alters a column: it is given, and is not what the column holds.
  abbrev pub Alters : Option A → Option A → Type 0
  Alters none old = ⊥
  Alters (some new) old = old ≢ some new

  -- The column after the amendment is what the patch gives, and as before where it gives nothing.
  abbrev pub Holds : Option A → Option A → Option A → Type 0
  Holds none old now = now ≡ old
  Holds (some new) old now = now ≡ some new

  module _ ⦃e : Eq A⦄ where
    holds-some : (o : Option A) (a : A) → holds o a ≡ true → o ≡ some a
    holds-some none a h = cc
    holds-some (some b) a h = ap some ((e.beq_iff b a).0 h)

    some-holds : (o : Option A) (a : A) → o ≡ some a → holds o a ≡ true
    some-holds none a h = cc
    some-holds (some b) a h = (e.beq_iff b a).1 (some_eq h)

    differs-Alters : (new old : Option A) → differs new old ≡ true → Alters new old
    differs-Alters none old h = cc
    differs-Alters (some new) old h = λ same. let held = some-holds old new same in ground arith

    same-Alters : (new old : Option A) → differs new old ≡ false → ¬ Alters new old
    same-Alters none old h = λ x. x
    same-Alters (some new) old h = λ other. other (holds-some old new (ground arith))

    pub set_if-Holds : (new old : Option A) → Holds new old (set_if (differs new old) new old)
    set_if-Holds none old = refl
    set_if-Holds (some new) old = elim (Bool-cases (holds old new)) [
      | inl same ↦ rw same (holds-some old new same)
      | inr other ↦ rw other refl
    ]

    is_empty-change_of :
        (field : String) (show : A → Detail) (new old : Option A) (rest : List (String × Detail))
        → is_empty (change_of field show new old ++ rest) ≡ (not (differs new old) && is_empty rest)
    is_empty-change_of field show new old rest = elim (Bool-cases (differs new old)) [
      | inl h ↦ rw h refl
      | inr h ↦ rw h refl
    ]

-- An authoring field of the patch alters the item.
abbrev pub AltersAuthoring : AssessmentItemAmend → AssessmentItem → Type 0
AltersAuthoring patch item =
    Alters patch.response item.response
    ⊎ (Alters patch.likelihood item.likelihood
        ⊎ (Alters patch.severity item.severity
            ⊎ (Alters patch.residual_likelihood item.residual_likelihood
                ⊎ (Alters patch.residual_severity item.residual_severity
                    ⊎ Alters patch.mitigation_plan item.mitigation_plan))))

-- A treatment field of the patch alters the item.
abbrev pub AltersTreatment : AssessmentItemAmend → AssessmentItem → Type 0
AltersTreatment patch item =
    Alters patch.treatment_decision item.treatment_decision
    ⊎ Alters patch.treatment_rationale item.treatment_rationale

nand_two : (a b : Bool) → not (not a && not b) ≡ (a || b)
nand_two a b = ground arith

nand_six :
    (a b c d e f : Bool)
    → not (not a && (not b && (not c && (not d && (not e && not f)))))
      ≡ (a || (b || (c || (d || (e || f)))))
nand_six true b c d e f = refl
nand_six false true c d e f = refl
nand_six false false c d e f = ground arith

-- One of two tests and what it decides.
or-Alters : {P Q : Type 0} (a b : Bool) → (a ≡ true → P) → (b ≡ true → Q) → (a || b) ≡ true → P ⊎ Q
or-Alters true b f g h = inl (f refl)
or-Alters false b f g h = inr (g h)

nor-Alters :
    {P Q : Type 0} (a b : Bool)
    → (a ≡ false → ¬ P)
    → (b ≡ false → ¬ Q)
    → (a || b) ≡ false
    → ¬ (P ⊎ Q)
nor-Alters true b f g h = cc
nor-Alters false b f g h = λ x. elim x [ inl p ↦ f refl p | inr q ↦ g h q ]

abbrev authoring_differs : AssessmentItemAmend → AssessmentItem → Bool
authoring_differs patch item =
    differs patch.response item.response
    || (differs patch.likelihood item.likelihood
        || (differs patch.severity item.severity
            || (differs patch.residual_likelihood item.residual_likelihood
                || (differs patch.residual_severity item.residual_severity
                    || differs patch.mitigation_plan item.mitigation_plan))))

abbrev treatment_differs : AssessmentItemAmend → AssessmentItem → Bool
treatment_differs patch item =
    differs patch.treatment_decision item.treatment_decision
    || differs patch.treatment_rationale item.treatment_rationale

is_empty-last :
    {A : Type 0} ⦃e : Eq A⦄ (field : String) (show : A → Detail) (new old : Option A)
    → is_empty (change_of field show new old) ≡ not (differs new old)
is_empty-last field show new old = elim (Bool-cases (differs new old)) [
  | inl h ↦ rw h refl
  | inr h ↦ rw h refl
]

authoring_changes-differs :
    (patch : AssessmentItemAmend) (item : AssessmentItem)
    → not (is_empty (authoring_changes patch item)) ≡ authoring_differs patch item
unfolding authoring_changes
authoring_changes-differs patch item =
    let flags : is_empty (authoring_changes patch item) ≡ (
        not (differs patch.response item.response)
        && (not (differs patch.likelihood item.likelihood)
            && (not (differs patch.severity item.severity)
                && (not (differs patch.residual_likelihood item.residual_likelihood)
                    && (not (differs patch.residual_severity item.residual_severity)
                        && not (differs patch.mitigation_plan item.mitigation_plan)))))) =
      rw
        (
          is_empty-change_of "response" Detail.text patch.response item.response,
          is_empty-change_of "likelihood" Detail.num patch.likelihood item.likelihood,
          is_empty-change_of "severity" Detail.num patch.severity item.severity,
          is_empty-change_of "residual_likelihood" Detail.num patch.residual_likelihood
              item.residual_likelihood,
          is_empty-change_of "residual_severity" Detail.num patch.residual_severity
              item.residual_severity,
          is_empty-last "mitigation_plan" Detail.text patch.mitigation_plan item.mitigation_plan,
        )
        refl in
    rw flags (
      nand_six (differs patch.response item.response) (differs patch.likelihood item.likelihood)
        (differs patch.severity item.severity)
        (differs patch.residual_likelihood item.residual_likelihood)
        (differs patch.residual_severity item.residual_severity)
        (differs patch.mitigation_plan item.mitigation_plan))

treatment_changes-differs :
    (patch : AssessmentItemAmend) (item : AssessmentItem)
    → not (is_empty (treatment_changes patch item)) ≡ treatment_differs patch item
unfolding treatment_changes
treatment_changes-differs patch item =
    let flags : is_empty (treatment_changes patch item) ≡ (
        not (differs patch.treatment_decision item.treatment_decision)
        && not (differs patch.treatment_rationale item.treatment_rationale)) =
      rw
        (
          is_empty-change_of "treatment_decision" show_decision patch.treatment_decision
              item.treatment_decision,
          is_empty-last "treatment_rationale" Detail.text patch.treatment_rationale
              item.treatment_rationale,
        )
        refl in
    rw flags (
      nand_two (differs patch.treatment_decision item.treatment_decision)
        (differs patch.treatment_rationale item.treatment_rationale))

pub authoring-Alters :
    (patch : AssessmentItemAmend) (item : AssessmentItem)
    → not (is_empty (authoring_changes patch item)) ≡ true
    → AltersAuthoring patch item
authoring-Alters patch item h =
    or-Alters _ _ (differs-Alters patch.response item.response)
      (or-Alters _ _ (differs-Alters patch.likelihood item.likelihood) (
        or-Alters _ _ (differs-Alters patch.severity item.severity) (
          or-Alters _ _ (differs-Alters patch.residual_likelihood item.residual_likelihood) (
            or-Alters _ _ (differs-Alters patch.residual_severity item.residual_severity)
              (differs-Alters patch.mitigation_plan item.mitigation_plan)))))
      (sym (authoring_changes-differs patch item) ∙ h)

pub not_authoring-Alters :
    (patch : AssessmentItemAmend) (item : AssessmentItem)
    → not (is_empty (authoring_changes patch item)) ≡ false
    → ¬ AltersAuthoring patch item
not_authoring-Alters patch item h =
    nor-Alters _ _ (same-Alters patch.response item.response)
      (nor-Alters _ _ (same-Alters patch.likelihood item.likelihood) (
        nor-Alters _ _ (same-Alters patch.severity item.severity) (
          nor-Alters _ _ (same-Alters patch.residual_likelihood item.residual_likelihood) (
            nor-Alters _ _ (same-Alters patch.residual_severity item.residual_severity)
              (same-Alters patch.mitigation_plan item.mitigation_plan)))))
      (sym (authoring_changes-differs patch item) ∙ h)

pub treatment-Alters :
    (patch : AssessmentItemAmend) (item : AssessmentItem)
    → not (is_empty (treatment_changes patch item)) ≡ true
    → AltersTreatment patch item
treatment-Alters patch item h =
    or-Alters _ _ (differs-Alters patch.treatment_decision item.treatment_decision)
      (differs-Alters patch.treatment_rationale item.treatment_rationale)
      (sym (treatment_changes-differs patch item) ∙ h)

pub not_treatment-Alters :
    (patch : AssessmentItemAmend) (item : AssessmentItem)
    → not (is_empty (treatment_changes patch item)) ≡ false
    → ¬ AltersTreatment patch item
not_treatment-Alters patch item h =
    nor-Alters _ _ (same-Alters patch.treatment_decision item.treatment_decision)
      (same-Alters patch.treatment_rationale item.treatment_rationale)
      (sym (treatment_changes-differs patch item) ∙ h)
