-- ===== src/ContextClassification/Prohibited.antt =====
-- A prohibited practice that the answers name halts the use case
-- (app/services/context_classification.py, app/services/lifecycle_service.py).
use aigov.ClassificationService.Current.{find?-sole}
use aigov.ClassificationService.Snapshot.{is_current_of}
use aigov.ContextClassification.Blob.{answers_blob_of}
use aigov.ContextClassification.Judgement.{Judged, resolve_context_classification-Judged}
use aigov.ContextClassification.Recorded.{write_pending-only}
use aigov.ContextClassification.Recording.{
  Submission, compute_and_record_classification, computed_tier, is_unresolved, override_of,
  pending_snapshot, record_outcome, write_pending,
}
use aigov.ContextClassification.Resolver.{
  ContextOutcome, OutcomeKind, resolve_context_classification,
}
use aigov.ContextClassification.Tree.{is_storable, load_tree, questions_of}
use aigov.ContextClassification.Walk.{answer_map}
use aigov.Gates.Readiness.{classification_readiness, current_snapshot}
use aigov.Lifecycle.Advance.{advance_use_case, must_halt}
use aigov.Lifecycle.Arrival.{Succeeds, advance_use_case-halts}
use aigov.Lifecycle.Legality.{is_terminal}
use aigov.Lifecycle.Resting.{IsFresh}
use aigov.Model.Enums.Lifecycle.{EuAiActTier, LifecycleState}
use aigov.Model.Rows.Assessment.{Classification}
use aigov.Model.Rows.Domain.{UseCase}
use aigov.Model.Rows.Tree.{DecisionTree, DecisionTreeQuestion}
use aigov.Model.Session.{Session}
use aigov.Prelude.{
  List, Option, String, ap, attribute_error, beq_refl, false, nat_eq, none, ok, or_error, refl,
  some, true, ℕ, ◌≡◌,
}

pub record HaltedBy (u : UseCase) (out : ContextOutcome)
    (got : ContextOutcome × Option Classification) (s : Session) : Type 0 where
  pub outcome : got.0 ≡ out
  pub halted : UseCase
  pub same_id : halted.id ≡ u.id
  pub state : halted.state ≡ LifecycleState.halted_prohibited
  pub stored : IsFresh halted s

-- A halt has the tier PROHIBITED.
halt-tier :
    (questions : List DecisionTreeQuestion) (entries : List (String × String))
    (out : ContextOutcome)
    → Judged questions entries out
    → out.kind ≡ OutcomeKind.prohibited_halt
    → out.tier ≡ some EuAiActTier.prohibited
halt-tier questions entries out (Judged.by_prohibition _ kind tier found) h = tier
halt-tier questions entries out (Judged.by_lack _ kind tier missing lacking) h = cc
halt-tier questions entries out (Judged.by_assertion _ t kind tier complete top calm) h = cc
halt-tier questions entries out (Judged.by_default _ kind tier complete silent) h = cc

module _ (u : UseCase) (asked : Submission) (actor : ℕ) (db : Session) (out : ContextOutcome)
    (tree : DecisionTree) where
  abbrev row : Classification
  row =
      pending_snapshot u out (computed_tier EuAiActTier.prohibited) asked.justification
        (answers_blob_of asked.tree_version tree asked.answers out EuAiActTier.prohibited) db

  abbrev written : Session
  written =
      write_pending u row out (computed_tier EuAiActTier.prohibited) asked.tree_version
        asked.justification actor db

  must_halt-written : must_halt u written ≡ true
  unfolding classification_readiness
  must_halt-written =
      let current : current_snapshot u written ≡ some row =
        find?-sole (is_current_of u) written.classifications (
          write_pending-only u row out (computed_tier EuAiActTier.prohibited) asked.tree_version
            asked.justification actor db (rw (beq_refl u.id) refl)) in
      rw current refl

  written-IsFresh : IsFresh u db → IsFresh u written
  unfolding write_pending
  written-IsFresh fresh = fresh

  no_override :
      asked.override_tier ≡ none
      → override_of EuAiActTier.prohibited asked.override_tier
        ≡ ok (computed_tier EuAiActTier.prohibited)
  unfolding override_of
  no_override plain = ap (override_of EuAiActTier.prohibited) plain

  recorded-returns :
      (v : UseCase) (after : Session)
      → asked.override_tier ≡ none
      → load_tree asked.tree_version db ≡ ok tree
      → advance_use_case u actor written ≡ (ok v, after)
      → record_outcome u asked actor out EuAiActTier.prohibited db ≡ (ok (out, some row), after)
  unfolding record_outcome is_storable
  recorded-returns v after plain loaded done = rw (no_override plain, loaded, done) refl

  open_kind : out.kind ≡ OutcomeKind.prohibited_halt → is_unresolved out.kind ≡ false
  open_kind kind = ap is_unresolved kind

  has_tier :
      out.tier ≡ some EuAiActTier.prohibited
      → or_error attribute_error out.tier ≡ ok EuAiActTier.prohibited
  has_tier tier = ap (or_error attribute_error) tier

  computed-returns :
      (after : Session)
      → resolve_context_classification asked.answers asked.tree_version db ≡ ok out
      → out.kind ≡ OutcomeKind.prohibited_halt
      → out.tier ≡ some EuAiActTier.prohibited
      → record_outcome u asked actor out EuAiActTier.prohibited db ≡ (ok (out, some row), after)
      → compute_and_record_classification u asked actor db ≡ (ok (out, some row), after)
  unfolding compute_and_record_classification
  computed-returns after resolved kind tier done =
      rw (resolved, open_kind kind, has_tier tier, done) refl

  prohibited-HaltedBy :
      IsFresh u db
      → is_terminal u.state ≡ false
      → asked.override_tier ≡ none
      → resolve_context_classification asked.answers asked.tree_version db ≡ ok out
      → load_tree asked.tree_version db ≡ ok tree
      → out.kind ≡ OutcomeKind.prohibited_halt
      → out.tier ≡ some EuAiActTier.prohibited
      → Succeeds (compute_and_record_classification u asked actor) db (HaltedBy u out)
  prohibited-HaltedBy fresh live plain resolved loaded kind tier =
      let done =
        advance_use_case-halts u actor written (written-IsFresh fresh) must_halt-written live in
      record {
        result = (out, some row);
        after = done.after;
        returns =
            computed-returns done.after resolved kind tier
              (recorded-returns done.result done.after plain loaded done.returns);
        holds_after = record {
          outcome = refl;
          halted = done.result;
          same_id = done.holds_after.same.facts.id;
          state = done.holds_after.state;
          stored = done.holds_after.fresh;
        };
      }

-- Answers by which the resolver halts, submitted without an override for a use case that has not
-- moved since it was read and is not halted yet, halt it in the call that records them: the call
-- does not fail, and does not wait for a review.
pub compute_and_record_classification-halts :
    (u : UseCase) (asked : Submission) (actor : ℕ) (db : Session) (out : ContextOutcome)
    → IsFresh u db
    → is_terminal u.state ≡ false
    → asked.override_tier ≡ none
    → resolve_context_classification asked.answers asked.tree_version db ≡ ok out
    → out.kind ≡ OutcomeKind.prohibited_halt
    → Succeeds (compute_and_record_classification u asked actor) db (HaltedBy u out)
compute_and_record_classification-halts u asked actor db out fresh live plain resolved kind =
    let (tree, loaded, judged) =
      resolve_context_classification-Judged asked.answers asked.tree_version db out resolved in
    prohibited-HaltedBy u asked actor db out tree fresh live plain resolved loaded kind
      (halt-tier (questions_of tree) (answer_map asked.answers) out judged kind)
