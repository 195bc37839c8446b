-- ===== src/ContextClassification/Tree.antt =====
-- The ladder of the tiers, the tree that is loaded, and the questions that are left
-- (app/services/context_classification.py).
use aigov.Model.Enums.Assessment.{ProvenanceConfidence}
use aigov.Model.Enums.Lifecycle.{EuAiActTier}
use aigov.Model.Rows.Tree.{DecisionTree, DecisionTreeOption, DecisionTreeQuestion}
use aigov.Model.Session.{Session}
use aigov.Prelude.{
  Bool, Error, List, Option, Result, String, [], any_row, err, false, find?, http, if◌then◌else◌,
  leb, lit, ltb, map, nat_eq, none, not, ok, or_error, order_by, some, string_eq, true, where_rows,
  ℕ, ◌==◌, ◌∷◌,
}

-- The position in `_TIER_PRECEDENCE`, or its length.
unfoldable pub tier_precedence : EuAiActTier → ℕ
tier_precedence EuAiActTier.prohibited = 0
tier_precedence EuAiActTier.high = 1
tier_precedence EuAiActTier.limited = 2
tier_precedence EuAiActTier.minimal = 3
tier_precedence EuAiActTier.requires_context = 4
tier_precedence EuAiActTier.unclassified = 4

-- `tier in _STORABLE_TIERS`
unfoldable pub is_storable : EuAiActTier → Bool
is_storable EuAiActTier.prohibited = true
is_storable EuAiActTier.high = true
is_storable EuAiActTier.limited = true
is_storable EuAiActTier.minimal = true
is_storable EuAiActTier.requires_context = false
is_storable EuAiActTier.unclassified = false

unfoldable pub higher_tier : Option EuAiActTier → Option EuAiActTier → Option EuAiActTier
unfolding tier_precedence
higher_tier none b = b
higher_tier (some a) none = some a
higher_tier (some a) (some b) =
    if leb (tier_precedence a) (tier_precedence b) then some a else some b

pub record AnswerIn : Type 0 where
  pub question_code : String
  pub option_code : String
  pub provenance : ProvenanceConfidence

pub record OptionRead : Type 0 where
  pub code : String
  pub label : String
  pub asserts_rung : Option EuAiActTier
  pub asserts_subcategory_code : Option String

pub record QuestionRead : Type 0 where
  pub code : String
  pub text : String
  pub legal_ref : Option String
  pub sort_order : ℕ
  pub options : List OptionRead

pub record QuestionSet : Type 0 where
  pub tree_version : String
  pub questions : List QuestionRead

-- The tree that was created last.
unfoldable pub latest_tree : Option DecisionTree → List DecisionTree → Option DecisionTree
latest_tree best [] = best
latest_tree none (tree ∷ trees) = latest_tree (some tree) trees
latest_tree (some best) (tree ∷ trees) =
    latest_tree (some (if ltb best.created_at tree.created_at then tree else best)) trees

unfoldable pub get_latest_tree_version : Session → Option String
unfolding latest_tree
get_latest_tree_version db = elim (latest_tree none db.decision_trees) [
  | none ↦ none
  | some tree ↦ some tree.version
]

abbrev pub unknown_version : String → Error
unknown_version version = http 422 (
    lit "Decision tree version '"
    ∷ lit version
    ∷ lit "' not found. "
    ∷ lit "Seed the tree before submitting answers."
    ∷ [])

unfoldable pub load_tree : String → Session → Result DecisionTree
load_tree version db =
    or_error (unknown_version version) (find? (λ tree. tree.version == version) db.decision_trees)

-- `tree.questions`, in the order of the relationship.
abbrev pub questions_of : DecisionTree → List DecisionTreeQuestion
questions_of tree = order_by (λ q. q.sort_order) tree.questions

abbrev pub option_read : DecisionTreeOption → OptionRead
option_read o = record {
  code = o.option_code;
  label = o.label;
  asserts_rung = o.asserts_rung;
  asserts_subcategory_code = o.asserts_subcategory_code;
}

abbrev pub question_read : DecisionTreeQuestion → QuestionRead
question_read q = record {
  code = q.question_code;
  text = q.text;
  legal_ref = q.legal_ref;
  sort_order = q.sort_order;
  options = map option_read q.options;
}

abbrev pub no_tree_loaded : Error
no_tree_loaded = http 503 (lit "No decision tree has been loaded. Run the seed script." ∷ [])

-- The version asked for, or the latest.
abbrev pub version_or_latest : Option String → Session → Result String
version_or_latest none db = or_error no_tree_loaded (get_latest_tree_version db)
version_or_latest (some version) db = ok version

abbrev pub is_answered : List AnswerIn → DecisionTreeQuestion → Bool
is_answered answers q = any_row (λ a. a.question_code == q.question_code) answers

abbrev pub residual : List AnswerIn → String → Result DecisionTree → Result QuestionSet
residual answers version (err e) = err e
residual answers version (ok tree) = ok record {
  tree_version = version;
  questions = map question_read (where_rows (λ q. not (is_answered answers q)) (questions_of tree));
}

unfoldable pub get_context_questions : List AnswerIn → Session → Option String → Result QuestionSet
unfolding get_latest_tree_version load_tree
get_context_questions answers db tree_version = elim (version_or_latest tree_version db) [
  | err e ↦ err e
  | ok version ↦ residual answers version (load_tree version db)
]
