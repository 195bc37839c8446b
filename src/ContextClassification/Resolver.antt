-- ===== src/ContextClassification/Resolver.antt =====
-- `resolve_context_classification` of app/services/context_classification.py.
use aigov.ContextClassification.Tree.{AnswerIn, load_tree, questions_of}
use aigov.ContextClassification.Walk.{
  Gathered, Walked, answer_map, first_walk, option_lookup, walk_answers,
}
use aigov.Model.Enums.Lifecycle.{EuAiActTier, eu_ai_act_tier_value}
use aigov.Model.Rows.Tree.{DecisionTreeQuestion}
use aigov.Model.Session.{Session}
use aigov.Prelude.{
  Error, List, Message, Option, Result, String, [], contains, dict_onto, err, http, if◌then◌else◌,
  is_empty, length, lit, map, nat_eq, none, not, ok, runtime_error, some, sorted, string_eq, uid,
  where_rows, ℕ, ◌++◌, ◌==◌, ◌∷◌,
}

pub data OutcomeKind : Type 0 where
  unresolved resolved prohibited_halt : OutcomeKind

pub record ContextOutcome : Type 0 where
  pub kind : OutcomeKind
  pub tier : Option EuAiActTier
  pub subcategory_code : Option String
  pub rationale : Message
  pub missing : List String

-- `'; '.join(parts)`
abbrev pub join_parts : List Message → Message
join_parts [] = []
join_parts (part ∷ []) = part
join_parts (part ∷ parts) = part ++ lit "; " ∷ join_parts parts

abbrev pub prohibited_outcome : Gathered → ContextOutcome
prohibited_outcome w = record {
  kind = OutcomeKind.prohibited_halt;
  tier = some EuAiActTier.prohibited;
  subcategory_code = w.resolved_subcategory_code;
  rationale =
      lit "PROHIBITED practice identified. "
        ∷ lit "Assertions: "
        ∷ join_parts w.assertion_rationale_parts
      ++ lit "." ∷ [];
  missing = [];
}

abbrev pub unresolved_outcome : List String → ContextOutcome
unresolved_outcome missing_codes = record {
  kind = OutcomeKind.unresolved;
  tier = none;
  subcategory_code = none;
  rationale =
      uid (length missing_codes)
      ∷ lit " question(s) still required to complete "
      ∷ lit "the EU AI Act classification."
      ∷ [];
  missing = missing_codes;
}

abbrev pub asserted_outcome : String → Gathered → EuAiActTier → ContextOutcome
asserted_outcome version w tier = record {
  kind = OutcomeKind.resolved;
  tier = some tier;
  subcategory_code = w.resolved_subcategory_code;
  rationale =
      lit "Resolved via decision tree v"
        ∷ lit version
        ∷ lit ". Highest asserted rung: "
        ∷ lit (eu_ai_act_tier_value tier)
        ∷ lit ". Assertions: "
        ∷ join_parts w.assertion_rationale_parts
      ++ lit "." ∷ [];
  missing = [];
}

abbrev pub minimal_outcome : ℕ → ContextOutcome
minimal_outcome count = record {
  kind = OutcomeKind.resolved;
  tier = some EuAiActTier.minimal;
  subcategory_code = none;
  rationale =
      lit "All "
      ∷ uid count
      ∷ lit " classification questions answered; "
      ∷ lit "no prohibited, high-risk, or limited-risk practices identified. "
      ∷ lit "Tier: MINIMAL (affirmative determination)."
      ∷ [];
  missing = [];
}

abbrev pub no_questions : String → Error
no_questions version =
    runtime_error
      (lit "Decision tree v" ∷ lit version ∷ lit " has no questions — seed defect." ∷ [])

-- The outcome where all questions are answered.
unfoldable pub settled_outcome : String → ℕ → Gathered → Result ContextOutcome
settled_outcome version count w = elim w.highest_rung [
  | some tier ↦ ok (asserted_outcome version w tier)
  | none ↦ if count == 0 then err (no_questions version) else ok (minimal_outcome count)
]

-- `question_map`
abbrev pub question_map : List DecisionTreeQuestion → List (String × DecisionTreeQuestion)
question_map questions = dict_onto [] (map (λ q. (q.question_code, q)) questions)

abbrev pub keys_of {ℓ κ} : {K : Type ℓ} {V : Type κ} → List (K × V) → List K
keys_of d = map (λ entry. entry.0) d

-- The codes that the first list has and the second has not, sorted.
abbrev pub codes_without : List String → List String → List String
codes_without codes others = sorted (where_rows (λ code. not (contains code others)) codes)

abbrev pub quoted : String → Message
quoted code = lit "'" ∷ lit code ∷ lit "'" ∷ []

-- A printed list of strings.
abbrev pub comma_separated : List String → Message
comma_separated [] = []
comma_separated (code ∷ []) = quoted code
comma_separated (code ∷ codes) = quoted code ++ lit ", " ∷ comma_separated codes

abbrev pub unknown_codes : List String → Error
unknown_codes codes =
    http 422
      (lit "Answers reference unknown question codes: [" ∷ comma_separated codes ++ lit "]" ∷ [])

abbrev pub outcome_of :
    String → List DecisionTreeQuestion → List (String × String) → Walked → Result ContextOutcome
outcome_of version questions answered (Walked.halted w) = ok (prohibited_outcome w)
outcome_of version questions answered (Walked.finished w) =
    let missing_codes = codes_without (keys_of (question_map questions)) (keys_of answered) in
    if not (is_empty missing_codes)
    then ok (unresolved_outcome missing_codes)
    else settled_outcome version (length questions) w

unfoldable pub resolve_answers :
    String → List DecisionTreeQuestion → List (String × String) → Result ContextOutcome
unfolding walk_answers settled_outcome
resolve_answers version questions answered =
    let unknown = codes_without (keys_of answered) (keys_of (question_map questions)) in
    let walked = walk_answers (option_lookup questions) answered first_walk in
    if not (is_empty unknown)
    then err (unknown_codes unknown)
    else elim walked [ err e ↦ err e | ok done ↦ outcome_of version questions answered done ]

unfoldable pub resolve_context_classification :
    List AnswerIn → String → Session → Result ContextOutcome
unfolding load_tree resolve_answers
resolve_context_classification answers version db = elim (load_tree version db) [
  | err e ↦ err e
  | ok tree ↦ resolve_answers version (questions_of tree) (answer_map answers)
]
