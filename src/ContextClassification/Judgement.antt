-- ===== src/ContextClassification/Judgement.antt =====
-- The outcomes of `resolve_context_classification` (app/services/context_classification.py).
use aigov.ContextClassification.Ladder.{IsTop, is_prohibited, rung_of, rung_place}
use aigov.ContextClassification.Resolver.{
  ContextOutcome, OutcomeKind, asserted_outcome, codes_without, keys_of, minimal_outcome,
  outcome_of, prohibited_outcome, question_map, resolve_answers, resolve_context_classification,
  settled_outcome, unresolved_outcome,
}
use aigov.ContextClassification.Search.{Found, walk_answers-IfOk}
use aigov.ContextClassification.Tree.{AnswerIn, load_tree, questions_of, tier_precedence}
use aigov.ContextClassification.Walk.{
  Gathered, Walked, answer_map, first_walk, option_lookup, same_tier, walk_answers,
}
use aigov.Model.Enums.Lifecycle.{EuAiActTier, eu_ai_act_tier_eq}
use aigov.Model.Rows.Tree.{DecisionTree, DecisionTreeOption, DecisionTreeQuestion}
use aigov.Model.Session.{Session}
use aigov.Prelude.{
  All, All-map, Bool, Bool-cases, IfOk, IfOk-at, IfOk-map, List, Option, Option-cases, Result,
  Result-cases, String, any_row, any_row-congr, arith, err, false, holds, inl, inr, is_empty,
  length, nat_eq, none, ok, refl, some, sym, true, ℕ, ◌==◌, ◌∙◌, ◌≡◌, ◌≤◌,
}

module _ (questions : List DecisionTreeQuestion) (entries : List (String × String)) where
  abbrev lookup : List (String × List (String × DecisionTreeOption))
  lookup = option_lookup questions

  abbrev pub Unasserted : Type 0
  Unasserted = All (λ entry. rung_of lookup entry ≡ none) entries

  -- An answer asserts the tier, and no answer asserts one above it.
  pub record IsHighest (t : EuAiActTier) : Type 0 where
    pub attained_in : any_row (λ entry. holds (rung_of lookup entry) t) entries ≡ true
    pub topmost : All (λ entry. tier_precedence t ≤ rung_place (rung_of lookup entry)) entries

  abbrev pub prohibits : Bool
  prohibits = any_row (λ entry. is_prohibited (rung_of lookup entry)) entries

  abbrev pub left_over : List String
  left_over = codes_without (keys_of (question_map questions)) (keys_of entries)

  -- The tier of an outcome, by its kind.
  pub data Judged : ContextOutcome → Type 0 where
    by_prohibition :
        (out : ContextOutcome)
        → out.kind ≡ OutcomeKind.prohibited_halt
        → out.tier ≡ some EuAiActTier.prohibited
        → prohibits ≡ true
        → Judged out
    by_lack :
        (out : ContextOutcome)
        → out.kind ≡ OutcomeKind.unresolved
        → out.tier ≡ none
        → out.missing ≡ left_over
        → is_empty left_over ≡ false
        → Judged out
    by_assertion :
        (out : ContextOutcome) (t : EuAiActTier)
        → out.kind ≡ OutcomeKind.resolved
        → out.tier ≡ some t
        → is_empty left_over ≡ true
        → IsHighest t
        → (t == EuAiActTier.prohibited) ≡ false
        → Judged out
    by_default :
        (out : ContextOutcome)
        → out.kind ≡ OutcomeKind.resolved
        → out.tier ≡ some EuAiActTier.minimal
        → is_empty left_over ≡ true
        → Unasserted
        → Judged out

  silent : (r : Option EuAiActTier) → 5 ≤ rung_place r → r ≡ none
  unfolding tier_precedence
  silent none h = refl
  silent (some t) h = ground arith

  default-Judged :
      (version : String) (count : ℕ) (w : Gathered)
      → w.highest_rung ≡ none
      → is_empty left_over ≡ true
      → IsTop lookup none entries w.highest_rung
      → IfOk Judged (settled_outcome version count w)
  unfolding settled_outcome
  default-Judged version count w none_found complete top = elim (Bool-cases (count == 0)) [
    | inl blank ↦ rw (none_found, IfOk, blank) tt
    | inr more ↦
        rw (none_found, IfOk, more)
          (by_default (minimal_outcome count) refl refl complete (
            All-map _ _ (λ entry below. silent (rung_of lookup entry) below) entries
              (rw none_found at top.above)))
  ]

  asserts_some : (r : Option EuAiActTier) (t : EuAiActTier) → same_tier r (some t) ≡ holds r t
  asserts_some none t = refl
  asserts_some (some a) t = refl

  top-attained :
      (t : EuAiActTier)
      → IsTop lookup none entries (some t)
      → any_row (λ entry. holds (rung_of lookup entry) t) entries ≡ true
  top-attained t top = elim top.attained [
    | inl never ↦ cc
    | inr found ↦
        sym (any_row-congr _ _ entries (λ entry. asserts_some (rung_of lookup entry) t)) ∙ found
  ]

  top-Judged :
      (version : String) (t : EuAiActTier) (w : Gathered)
      → is_empty left_over ≡ true
      → IsTop lookup none entries (some t)
      → Judged (asserted_outcome version w t)
  top-Judged version t w complete top =
      by_assertion (asserted_outcome version w t) t refl refl complete
        (record { attained_in = top-attained t top; topmost = top.above }) (top.calm refl)

  settled-Judged :
      (version : String) (count : ℕ) (w : Gathered)
      → is_empty left_over ≡ true
      → IsTop lookup none entries w.highest_rung
      → IfOk Judged (settled_outcome version count w)
  unfolding settled_outcome
  settled-Judged version count w complete top = elim (Option-cases w.highest_rung) [
    | inl e ↦ default-Judged version count w e complete top
    | inr (t, e) ↦ rw (e, IfOk) (top-Judged version t w complete (rw e at top))
  ]

  outcome-Judged :
      (version : String) (done : Walked)
      → Found lookup entries none done
      → IfOk Judged (outcome_of version questions entries done)
  outcome-Judged version (Walked.halted w) found =
      by_prohibition (prohibited_outcome w) refl refl (found refl)
  outcome-Judged version (Walked.finished w) top = elim (Bool-cases (is_empty left_over)) [
    | inl complete ↦ rw complete (settled-Judged version (length questions) w complete top)
    | inr lacking ↦ rw lacking (by_lack (unresolved_outcome left_over) refl refl refl lacking)
  ]

  walked-Judged :
      (version : String) (r : Result Walked)
      → IfOk (Found lookup entries none) r
      → IfOk Judged (elim r [ err e ↦ err e | ok done ↦ outcome_of version questions entries done ])
  walked-Judged version (err e) h = tt
  walked-Judged version (ok done) h = outcome-Judged version done h

  resolve_answers-Judged :
      (version : String) → IfOk Judged (resolve_answers version questions entries)
  unfolding resolve_answers
  resolve_answers-Judged version =
      elim (Bool-cases
        (is_empty (codes_without (keys_of entries) (keys_of (question_map questions))))) [
          | inr unknown ↦ rw unknown tt
          | inl known ↦ rw known (
              walked-Judged version (walk_answers lookup entries first_walk)
                (walk_answers-IfOk lookup entries first_walk))
        ]

abbrev pub JudgedBy : List AnswerIn → String → Session → ContextOutcome → Type 0
JudgedBy answers version db out =
    (tree : DecisionTree) × (load_tree version db ≡ ok tree)
    × Judged (questions_of tree) (answer_map answers) out

resolve-IfOk :
    (answers : List AnswerIn) (version : String) (db : Session)
    → IfOk (JudgedBy answers version db) (resolve_context_classification answers version db)
unfolding resolve_context_classification
resolve-IfOk answers version db = elim (Result-cases (load_tree version db)) [
  | inl (tree, loaded) ↦
      rw (loaded, IfOk)
        (IfOk-map _ _ (λ out judged. (tree, loaded, judged))
          (resolve_answers version (questions_of tree) (answer_map answers))
          (resolve_answers-Judged (questions_of tree) (answer_map answers) version))
  | inr (e, failed) ↦ rw (failed, IfOk) tt
]

-- The resolver judges by the tree of the version. It halts only if an answer asserts a prohibited
-- practice; it leaves the tier open, and names the questions that are left, only if there are such;
-- otherwise all questions of the tree are answered, and the tier is one that an answer asserts,
-- other than PROHIBITED, with no answer that asserts one above it; or it is MINIMAL, and no answer
-- asserts any. The answers are those of the dictionary that the resolver makes of them.
pub resolve_context_classification-Judged :
    (answers : List AnswerIn) (version : String) (db : Session) (out : ContextOutcome)
    → resolve_context_classification answers version db ≡ ok out
    → JudgedBy answers version db out
resolve_context_classification-Judged answers version db out h =
    IfOk-at (JudgedBy answers version db) (resolve_context_classification answers version db) out h
      (resolve-IfOk answers version db)
