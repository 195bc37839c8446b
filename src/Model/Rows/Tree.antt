-- ===== src/Model/Rows/Tree.antt =====
-- The decision tree of the context classification (app/models/decision_tree.py). A tree holds the
-- rows of its questions and a question those of its options, by their foreign keys.
use aigov.Model.Enums.Assessment.{ProvenanceConfidence}
use aigov.Model.Enums.Lifecycle.{EuAiActTier}
use aigov.Prelude.{List, Message, Option, String, ℕ}

pub record DecisionTreeOption : Type 0 where
  pub option_code : String
  pub label : String
  pub asserts_rung : Option EuAiActTier
  pub asserts_subcategory_code : Option String

pub record DecisionTreeQuestion : Type 0 where
  pub question_code : String
  pub text : String
  pub legal_ref : Option String
  pub sort_order : ℕ
  pub options : List DecisionTreeOption

pub record DecisionTree : Type 0 where
  pub version : String
  pub created_at : ℕ
  pub questions : List DecisionTreeQuestion

-- An answer as a snapshot keeps it (app/services/context_classification.py).
pub record AnswerBlob : Type 0 where
  pub question_code : String
  pub question_text : String
  pub option_code : String
  pub option_label : String
  pub legal_ref : Option String
  pub asserts : Message
  pub provenance : ProvenanceConfidence

pub record AnswersBlob : Type 0 where
  pub tree_version : String
  pub resolution : String
  pub outcome : String
  pub resolved_rung : String
  pub resolved_subcategory_code : Option String
  pub answers : List AnswerBlob
