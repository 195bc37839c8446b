-- ===== src/ContextClassification/Search.antt =====
-- The walk over the answers, to its halt or to its end (app/services/context_classification.py).
use aigov.ContextClassification.Ladder.{
  IsTop, higher_tier-above, higher_tier-none, higher_tier-one_of, higher_tier-prohibited,
  is_prohibited, note_option-highest_rung, rung_of, same_tier_refl,
}
use aigov.ContextClassification.Tree.{higher_tier}
use aigov.ContextClassification.Walk.{
  Gathered, Walked, halts_at, lookup_option, note_option, same_tier, walk_answers,
}
use aigov.Model.Enums.Lifecycle.{EuAiActTier}
use aigov.Model.Rows.Tree.{DecisionTreeOption}
use aigov.Prelude.{
  Bool, Bool-cases, IfOk, IfOk-map, List, Option, Option-cases, String, [], any_row, arith, false,
  inl, inr, is_some, nat_eq, none, refl, some, sym, true, ◌&&◌, ◌∙◌, ◌∷◌, ◌≡◌, ◌⊎◌,
}
use mathlib.Core.Bool.{or-true}
use native.Mathlib.Nat.{le_trans}

and-right : (a b : Bool) → (a && b) ≡ true → b ≡ true
and-right a b h = ground arith

-- A round that does not halt leaves a calm rung calm.
calm_next :
    (start b : Option EuAiActTier)
    → (is_some b && is_prohibited (higher_tier start b)) ≡ false
    → is_prohibited start ≡ false
    → is_prohibited (higher_tier start b) ≡ false
calm_next start none going calm = rw (higher_tier-none start) calm
calm_next start (some b) going calm = going

module _ (lookup : List (String × List (String × DecisionTreeOption))) where
  head_asserts :
      (entry : String × String) (entries : List (String × String)) (top : Option EuAiActTier)
      → top ≡ rung_of lookup entry
      → any_row (λ other. same_tier (rung_of lookup other) top) (entry ∷ entries) ≡ true
  head_asserts entry entries top e = rw (e, same_tier_refl (rung_of lookup entry)) refl

  attained_by :
      (entry : String × String) (entries : List (String × String)) (start top : Option EuAiActTier)
      → IsTop lookup (higher_tier start (rung_of lookup entry)) entries top
      → (top ≡ start)
        ⊎ (any_row (λ other. same_tier (rung_of lookup other) top) (entry ∷ entries) ≡ true)
  attained_by entry entries start top rest = elim rest.attained [
    | inr later ↦ inr (rw later (or-true _))
    | inl here ↦ elim (higher_tier-one_of start (rung_of lookup entry)) [
      | inl same ↦ inl (here ∙ same)
      | inr same ↦ inr (head_asserts entry entries top (here ∙ same))
    ]
  ]

  -- One round that does not halt.
  IsTop-step :
      (entry : String × String) (entries : List (String × String)) (start top : Option EuAiActTier)
      → (is_some (rung_of lookup entry) && is_prohibited (higher_tier start (rung_of lookup entry)))
        ≡ false
      → IsTop lookup (higher_tier start (rung_of lookup entry)) entries top
      → IsTop lookup start (entry ∷ entries) top
  IsTop-step entry entries start top going rest =
      let (below, above) = higher_tier-above start (rung_of lookup entry) in
      record {
        attained = attained_by entry entries start top rest;
        above_start = le_trans rest.above_start below;
        above = (le_trans rest.above_start above, rest.above);
        calm = λ calm. rest.calm (calm_next start (rung_of lookup entry) going calm);
      }

  -- What the walk over the answers has found, where it comes to a result.
  abbrev pub Found : List (String × String) → Option EuAiActTier → Walked → Type 0
  Found entries start (Walked.halted v) =
      is_prohibited start ≡ false
      → any_row (λ entry. is_prohibited (rung_of lookup entry)) entries ≡ true
  Found entries start (Walked.finished v) = IsTop lookup start entries v.highest_rung

  start-IsTop : (start : Option EuAiActTier) → IsTop lookup start [] start
  start-IsTop start = record {
    attained = inl refl;
    above_start = omega arith;
    above = tt;
    calm = λ calm. calm;
  }

  -- An answer that is found, and does not halt the walk.
  Found-step :
      (entry : String × String) (entries : List (String × String)) (start : Option EuAiActTier)
      (done : Walked)
      → (is_some (rung_of lookup entry) && is_prohibited (higher_tier start (rung_of lookup entry)))
        ≡ false
      → Found entries (higher_tier start (rung_of lookup entry)) done
      → Found (entry ∷ entries) start done
  Found-step entry entries start (Walked.finished v) going rest =
      IsTop-step entry entries start v.highest_rung going rest
  Found-step entry entries start (Walked.halted v) going rest = λ calm.
      let later = rest (calm_next start (rung_of lookup entry) going calm) in rw later (or-true _)

  Found-halt :
      (entry : String × String) (entries : List (String × String)) (start : Option EuAiActTier)
      → is_prohibited (higher_tier start (rung_of lookup entry)) ≡ true
      → is_prohibited start ≡ false
      → any_row (λ other. is_prohibited (rung_of lookup other)) (entry ∷ entries) ≡ true
  Found-halt entry entries start h calm =
      rw (higher_tier-prohibited start (rung_of lookup entry) calm h) refl

  pub walk_answers-IfOk :
      (entries : List (String × String)) (w : Gathered)
      → IfOk (Found entries w.highest_rung) (walk_answers lookup entries w)
  unfolding walk_answers
  walk_answers-IfOk [] w = start-IsTop w.highest_rung
  walk_answers-IfOk ((q_code, o_code) ∷ entries) w =
      elim (Option-cases (lookup_option lookup q_code o_code)) [
        | inl missing ↦ rw (missing, IfOk) tt
        | inr (opt, found) ↦
            let entry : String × String = (q_code, o_code) in
            let next = note_option q_code o_code opt w in
            let rung : rung_of lookup entry ≡ opt.asserts_rung = rw (found, rung_of) refl in
            let e = note_option-highest_rung q_code o_code opt w in
            elim (Bool-cases (halts_at opt next)) [
              | inl stop ↦
                  rw (found, IfOk, stop)
                    (Found-halt entry entries w.highest_rung
                      (rw (rung, sym e) (and-right _ _ stop)))
              | inr going ↦
                  let round = Found-step entry entries w.highest_rung in
                  let later = walk_answers-IfOk entries next in
                  rw (found, IfOk, going)
                    (IfOk-map (Found entries next.highest_rung)
                      (Found (entry ∷ entries) w.highest_rung)
                      (λ done rest. round done (rw (rung, sym e) going) (rw (rung, sym e) rest))
                      (walk_answers lookup entries next) later)
            ]
      ]
