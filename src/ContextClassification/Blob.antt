-- ===== src/ContextClassification/Blob.antt =====
-- The answers as `compute_and_record_classification` keeps them with a snapshot
-- (app/services/context_classification.py).
use aigov.ContextClassification.Resolver.{ContextOutcome, OutcomeKind, question_map}
use aigov.ContextClassification.Tree.{AnswerIn, questions_of}
use aigov.ContextClassification.Walk.{lookup_option, option_lookup, truthy}
use aigov.Model.Enums.Assessment.{ProvenanceConfidence}
use aigov.Model.Enums.Lifecycle.{EuAiActTier, eu_ai_act_tier_value}
use aigov.Model.Rows.Tree.{
  AnswerBlob, AnswersBlob, DecisionTree, DecisionTreeOption, DecisionTreeQuestion,
}
use aigov.Prelude.{
  List, Message, Option, String, [], dict_onto, get_key, lit, map, nat_eq, none, some, string_eq,
  ◌∷◌,
}

abbrev pub outcome_kind_value : OutcomeKind → String
outcome_kind_value OutcomeKind.unresolved = "UNRESOLVED"
outcome_kind_value OutcomeKind.resolved = "RESOLVED"
outcome_kind_value OutcomeKind.prohibited_halt = "PROHIBITED_HALT"

-- `asserts_str`
abbrev pub asserts_text : Option DecisionTreeOption → Message
asserts_text none = lit "none" ∷ []
asserts_text (some opt) = elim opt.asserts_rung [
  | some rung ↦ lit "rung:" ∷ lit (eu_ai_act_tier_value rung) ∷ []
  | none ↦ elim (truthy opt.asserts_subcategory_code) [
    | some code ↦ lit "subcategory:" ∷ lit code ∷ []
    | none ↦ lit "none" ∷ []
  ]
]

abbrev pub label_of_option : Option DecisionTreeOption → String
label_of_option none = ""
label_of_option (some opt) = opt.label

abbrev pub text_of_question : Option DecisionTreeQuestion → String
text_of_question none = ""
text_of_question (some q) = q.text

abbrev pub question_legal_ref : Option DecisionTreeQuestion → Option String
question_legal_ref none = none
question_legal_ref (some q) = q.legal_ref

abbrev pub provenance_or : Option ProvenanceConfidence → ProvenanceConfidence
provenance_or none = ProvenanceConfidence.user_confirmed
provenance_or (some p) = p

-- `provenance_map`
abbrev pub provenance_map : List AnswerIn → List (String × ProvenanceConfidence)
provenance_map answers = dict_onto [] (map (λ a. (a.question_code, a.provenance)) answers)

abbrev pub answer_blob : List DecisionTreeQuestion → List AnswerIn → AnswerIn → AnswerBlob
answer_blob questions answers a =
    let q = get_key a.question_code (question_map questions) in
    let opt = lookup_option (option_lookup questions) a.question_code a.option_code in
    record {
      question_code = a.question_code;
      question_text = text_of_question q;
      option_code = a.option_code;
      option_label = label_of_option opt;
      legal_ref = question_legal_ref q;
      asserts = asserts_text opt;
      provenance = provenance_or (get_key a.question_code (provenance_map answers));
    }

abbrev pub answers_blob_of :
    String → DecisionTree → List AnswerIn → ContextOutcome → EuAiActTier → AnswersBlob
answers_blob_of version tree answers out stored_tier = record {
  tree_version = version;
  resolution = "FROM_SCRATCH";
  outcome = outcome_kind_value out.kind;
  resolved_rung = eu_ai_act_tier_value stored_tier;
  resolved_subcategory_code = out.subcategory_code;
  answers = map (answer_blob (questions_of tree) answers) answers;
}
