-- ===== src/ContextClassification/Walk.antt =====
-- The loop over the answers in `resolve_context_classification`
-- (app/services/context_classification.py).
use aigov.ContextClassification.Tree.{AnswerIn, higher_tier}
use aigov.Model.Enums.Lifecycle.{EuAiActTier, eu_ai_act_tier_eq, eu_ai_act_tier_value}
use aigov.Model.Rows.Tree.{DecisionTreeOption, DecisionTreeQuestion}
use aigov.Prelude.{
  Bool, Error, List, Message, Option, Result, String, [], dict_onto, err, false, get_key, holds,
  http, if◌then◌else◌, is_none, is_some, lit, map, nat_eq, none, ok, some, string_eq, ◌&&◌, ◌++◌,
  ◌==◌, ◌∷◌,
}

-- `{a.question_code: a.option_code for a in answers}`
abbrev pub answer_map : List AnswerIn → List (String × String)
answer_map answers = dict_onto [] (map (λ a. (a.question_code, a.option_code)) answers)

-- `option_lookup`
abbrev pub option_lookup :
    List DecisionTreeQuestion → List (String × List (String × DecisionTreeOption))
option_lookup questions =
    dict_onto [] (
      map (λ q. (q.question_code, dict_onto [] (map (λ o. (o.option_code, o)) q.options)))
        questions)

-- `option_lookup.get(q_code, {}).get(o_code)`
unfoldable pub lookup_option :
    List (String × List (String × DecisionTreeOption)) → String → String → Option DecisionTreeOption
lookup_option lookup q_code o_code = elim (get_key q_code lookup) [
  | none ↦ none
  | some opts ↦ get_key o_code opts
]

-- What the loop over the answers has gathered.
pub record Gathered : Type 0 where
  pub highest_rung : Option EuAiActTier
  pub resolved_subcategory_code : Option String
  pub assertion_rationale_parts : List Message

abbrev pub first_walk : Gathered
first_walk = record {
  highest_rung = none;
  resolved_subcategory_code = none;
  assertion_rationale_parts = [];
}

-- A string that is not None and not empty.
abbrev pub truthy : Option String → Option String
truthy none = none
truthy (some s) = if s == "" then none else some s

abbrev pub sub_note : Option String → Message
sub_note none = []
sub_note (some code) = lit " (" ∷ lit code ∷ lit ")" ∷ []

abbrev pub assertion_part : String → String → EuAiActTier → Option String → Message
assertion_part q_code o_code rung code =
    lit q_code ∷ lit "/" ∷ lit o_code ∷ lit " → " ∷ lit (eu_ai_act_tier_value rung) ∷ sub_note code

abbrev pub code_or : Option String → Option String → Option String
code_or none before = before
code_or (some code) before = some code

abbrev pub same_tier : Option EuAiActTier → Option EuAiActTier → Bool
same_tier none b = is_none b
same_tier (some a) none = false
same_tier (some a) (some b) = a == b

abbrev pub with_assertion : Message → Option String → Option EuAiActTier → Gathered → Gathered
with_assertion part code highest w = record {
  highest_rung = highest;
  resolved_subcategory_code = code_or code w.resolved_subcategory_code;
  assertion_rationale_parts = w.assertion_rationale_parts ++ part ∷ [];
}

-- The assertion of a rung by an option: it counts if it takes the walk to another rung.
unfoldable pub assert_rung :
    String → String → DecisionTreeOption → EuAiActTier → Gathered → Gathered
unfolding higher_tier
assert_rung q_code o_code opt rung w =
    let highest = higher_tier w.highest_rung (some rung) in
    let code = truthy opt.asserts_subcategory_code in
    if same_tier highest w.highest_rung
    then w
    else with_assertion (assertion_part q_code o_code rung code) code highest w

unfoldable pub note_option : String → String → DecisionTreeOption → Gathered → Gathered
unfolding assert_rung
note_option q_code o_code opt w = elim opt.asserts_rung [
  | none ↦ w
  | some rung ↦ assert_rung q_code o_code opt rung w
]

abbrev pub halts_at : DecisionTreeOption → Gathered → Bool
halts_at opt w = is_some opt.asserts_rung && holds w.highest_rung EuAiActTier.prohibited

-- The loop halts at a prohibited practice, or goes through all answers.
pub data Walked : Type 0 where
  halted : Gathered → Walked
  finished : Gathered → Walked

abbrev pub option_not_found : String → String → Error
option_not_found q_code o_code =
    http 422
      (lit "Option '" ∷ lit o_code ∷ lit "' not found for question '" ∷ lit q_code ∷ lit "'" ∷ [])

unfoldable pub walk_answers :
    List (String × List (String × DecisionTreeOption))
    → List (String × String)
    → Gathered
    → Result Walked
unfolding note_option lookup_option
walk_answers lookup [] w = ok (Walked.finished w)
walk_answers lookup ((q_code, o_code) ∷ answered) w = elim (lookup_option lookup q_code o_code) [
  | none ↦ err (option_not_found q_code o_code)
  | some opt ↦
      let next = note_option q_code o_code opt w in
      let later = walk_answers lookup answered next in
      if halts_at opt next then ok (Walked.halted next) else later
]
