-- ===== src/Examples/Context.antt =====
-- The small tenant answers a decision tree (app/services/context_classification.py).
use aigov.ContextClassification.Blob.{answers_blob_of}
use aigov.ContextClassification.Judgement.{JudgedBy, resolve_context_classification-Judged}
use aigov.ContextClassification.Prohibited.{HaltedBy, compute_and_record_classification-halts}
use aigov.ContextClassification.Ratified.{Ratified, sign_off_classification-Ratified}
use aigov.ContextClassification.Recorded.{Stores, compute_and_record_classification-Stores}
use aigov.ContextClassification.Recording.{
  Submission, compute_and_record_classification, computed_tier, pending_snapshot,
}
use aigov.ContextClassification.Resolver.{
  ContextOutcome, asserted_outcome, prohibited_outcome, resolve_context_classification,
}
use aigov.ContextClassification.SignOff.{sign_off_classification}
use aigov.ContextClassification.Tree.{AnswerIn}
use aigov.ContextClassification.Walk.{assertion_part}
use aigov.Examples.World.{snapshot_of, uncleared, use_case_in}
use aigov.Gates.Readiness.{classification_readiness}
use aigov.Gates.Structure.{assessment_gate, structural_assessment_readiness}
use aigov.Lifecycle.Advance.{advance_loop, gate_for_state}
use aigov.Lifecycle.Arrival.{Succeeds}
use aigov.Lifecycle.Transition.{apply_transition}
use aigov.Model.Enums.Assessment.{ProvenanceConfidence}
use aigov.Model.Enums.Lifecycle.{ClassificationStatus, EuAiActTier, LifecycleState}
use aigov.Model.Rows.Assessment.{Classification}
use aigov.Model.Rows.Tree.{DecisionTree, DecisionTreeOption, DecisionTreeQuestion}
use aigov.Model.Session.{Session}
use aigov.Prelude.{List, Option, String, [], nat_eq, none, ok, refl, some, ℕ, ◌∷◌, ◌≡◌}

abbrev option_of : String → Option EuAiActTier → Option String → DecisionTreeOption
option_of code rung sub = record {
  option_code = code;
  label = code;
  asserts_rung = rung;
  asserts_subcategory_code = sub;
}

abbrev question_of : String → ℕ → EuAiActTier → Option String → DecisionTreeQuestion
question_of code sort_order rung sub = record {
  question_code = code;
  text = code;
  legal_ref = none;
  sort_order = sort_order;
  options = option_of "YES" (some rung) sub ∷ option_of "NO" none none ∷ [];
}

abbrev tree : DecisionTree
tree = record {
  version = "1.0";
  created_at = 10;
  questions =
      question_of "Q_CHATBOT" 30 EuAiActTier.limited none
      ∷ question_of "Q_SCORING" 10 EuAiActTier.prohibited (some "ART5_SCORING")
      ∷ question_of "Q_EDUCATION" 20 EuAiActTier.high (some "ANNEX3_EDUCATION")
      ∷ [];
}

abbrev seeded : Session
seeded = record (uncleared LifecycleState.intake) { decision_trees = tree ∷ [] }

abbrev answer_of : String → String → AnswerIn
answer_of question option = record {
  question_code = question;
  option_code = option;
  provenance = ProvenanceConfidence.user_confirmed;
}

abbrev submission_of : List AnswerIn → Submission
submission_of answers = record {
  answers = answers;
  tree_version = "1.0";
  override_tier = none;
  justification = none;
}

-- A chatbot in education.
abbrev tutoring : List AnswerIn
tutoring =
    answer_of "Q_CHATBOT" "YES" ∷ answer_of "Q_SCORING" "NO" ∷ answer_of "Q_EDUCATION" "YES" ∷ []

abbrev tutoring_outcome : ContextOutcome
tutoring_outcome =
    asserted_outcome "1.0"
      (record {
        highest_rung = some EuAiActTier.high;
        resolved_subcategory_code = some "ANNEX3_EDUCATION";
        assertion_rationale_parts =
            assertion_part "Q_CHATBOT" "YES" EuAiActTier.limited none
            ∷ assertion_part "Q_EDUCATION" "YES" EuAiActTier.high (some "ANNEX3_EDUCATION")
            ∷ [];
      })
      EuAiActTier.high

tutoring-resolves : resolve_context_classification tutoring "1.0" seeded ≡ ok tutoring_outcome
unfolding resolve_context_classification
tutoring-resolves = refl

resolve_context_classification-Judged_example : JudgedBy tutoring "1.0" seeded tutoring_outcome
resolve_context_classification-Judged_example =
    resolve_context_classification-Judged tutoring "1.0" seeded tutoring_outcome tutoring-resolves

abbrev tutoring_snapshot : Classification
tutoring_snapshot =
    pending_snapshot (use_case_in LifecycleState.intake) tutoring_outcome
      (computed_tier EuAiActTier.high) none
      (answers_blob_of "1.0" tree tutoring tutoring_outcome EuAiActTier.high) seeded

tutoring-returns :
    (compute_and_record_classification
      (use_case_in LifecycleState.intake)
      (submission_of tutoring)
      2
      seeded).0
    ≡ ok (tutoring_outcome, some tutoring_snapshot)
unfolding compute_and_record_classification classification_readiness advance_loop gate_for_state
    apply_transition assessment_gate structural_assessment_readiness
tutoring-returns = refl

compute_and_record_classification-Stores_example :
    Stores
      (use_case_in LifecycleState.intake)
      none
      seeded
      (tutoring_outcome, some tutoring_snapshot)
      (compute_and_record_classification
        (use_case_in LifecycleState.intake)
        (submission_of tutoring)
        2
        seeded).1
compute_and_record_classification-Stores_example =
    compute_and_record_classification-Stores (use_case_in LifecycleState.intake)
      (submission_of tutoring) 2 seeded (tutoring_outcome, some tutoring_snapshot) tutoring-returns

abbrev scoring : List AnswerIn
scoring = answer_of "Q_CHATBOT" "YES" ∷ answer_of "Q_SCORING" "YES" ∷ []

abbrev scoring_outcome : ContextOutcome
scoring_outcome = prohibited_outcome (record {
  highest_rung = some EuAiActTier.prohibited;
  resolved_subcategory_code = some "ART5_SCORING";
  assertion_rationale_parts =
      assertion_part "Q_CHATBOT" "YES" EuAiActTier.limited none
      ∷ assertion_part "Q_SCORING" "YES" EuAiActTier.prohibited (some "ART5_SCORING")
      ∷ [];
})

scoring-halts : resolve_context_classification scoring "1.0" seeded ≡ ok scoring_outcome
unfolding resolve_context_classification
scoring-halts = refl

compute_and_record_classification-halts_example :
    Succeeds
      (compute_and_record_classification
        (use_case_in LifecycleState.intake)
        (submission_of scoring)
        2)
      seeded
      (HaltedBy (use_case_in LifecycleState.intake) scoring_outcome)
compute_and_record_classification-halts_example =
    compute_and_record_classification-halts (use_case_in LifecycleState.intake)
      (submission_of scoring) 2 seeded scoring_outcome refl refl refl scoring-halts refl

-- A snapshot that waits for its review.
abbrev waiting : Classification
waiting = record (snapshot_of EuAiActTier.limited) { status = ClassificationStatus.pending_review }

abbrev reviewable : Session
reviewable = record (uncleared LifecycleState.intake) { classifications = waiting ∷ [] }

sign_off-returns :
    (sign_off_classification (use_case_in LifecycleState.intake) 3 reviewable).0
    ≡ ok (record waiting { status = ClassificationStatus.approved })
unfolding sign_off_classification classification_readiness advance_loop gate_for_state
    apply_transition assessment_gate structural_assessment_readiness
sign_off-returns = refl

sign_off_classification-Ratified_example :
    Ratified
      (use_case_in LifecycleState.intake)
      reviewable
      (record waiting { status = ClassificationStatus.approved })
      (sign_off_classification (use_case_in LifecycleState.intake) 3 reviewable).1
sign_off_classification-Ratified_example =
    sign_off_classification-Ratified (use_case_in LifecycleState.intake) 3 reviewable
      (record waiting { status = ClassificationStatus.approved }) sign_off-returns
