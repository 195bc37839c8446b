-- ===== src/ContextClassification/Ladder.antt =====
-- What the loop over the answers finds: the highest rung that an answer asserts
-- (app/services/context_classification.py).
use aigov.ContextClassification.Tree.{higher_tier, tier_precedence}
use aigov.ContextClassification.Walk.{Gathered, assert_rung, lookup_option, note_option, same_tier}
use aigov.Model.Enums.Lifecycle.{EuAiActTier, eu_ai_act_tier_eq}
use aigov.Model.Rows.Tree.{DecisionTreeOption}
use aigov.Prelude.{
  All, Bool, Bool-cases, List, Option, Option-cases, String, any_row, ap, arith, false, holds, inl,
  inr, leb, nat_eq, none, refl, some, sym, true, ℕ, ◌≡◌, ◌≤◌, ◌⊎◌,
}

-- The rung that an answer asserts.
abbrev pub rung_of :
    List (String × List (String × DecisionTreeOption)) → String × String → Option EuAiActTier
rung_of lookup entry = elim (lookup_option lookup entry.0 entry.1) [
  | none ↦ none
  | some opt ↦ opt.asserts_rung
]

-- The place of a rung on the ladder, 0 at the top; an answer that asserts none is below all.
abbrev pub rung_place : Option EuAiActTier → ℕ
rung_place none = 5
rung_place (some t) = tier_precedence t

abbrev pub is_prohibited : Option EuAiActTier → Bool
is_prohibited rung = holds rung EuAiActTier.prohibited

pub same_tier-≡ : (a b : Option EuAiActTier) → same_tier a b ≡ true → a ≡ b
same_tier-≡ none none h = refl
same_tier-≡ none (some b) h = cc
same_tier-≡ (some a) none h = cc
same_tier-≡ (some a) (some b) h = ap some ((eu_ai_act_tier_eq.beq_iff a b).0 h)

pub same_tier_refl : (a : Option EuAiActTier) → same_tier a a ≡ true
same_tier_refl none = refl
same_tier_refl (some a) = (eu_ai_act_tier_eq.beq_iff a a).1 refl

pub higher_tier-none : (a : Option EuAiActTier) → higher_tier a none ≡ a
unfolding higher_tier
higher_tier-none none = refl
higher_tier-none (some a) = refl

pub higher_tier-one_of : (a b : Option EuAiActTier) → (higher_tier a b ≡ a) ⊎ (higher_tier a b ≡ b)
unfolding higher_tier
higher_tier-one_of none b = inr refl
higher_tier-one_of (some a) none = inl refl
higher_tier-one_of (some a) (some b) =
    elim (Bool-cases (leb (tier_precedence a) (tier_precedence b))) [
      | inl k ↦ inl (rw k refl)
      | inr k ↦ inr (rw k refl)
    ]

pub rung_place-le : (t : EuAiActTier) → tier_precedence t ≤ 5
unfolding tier_precedence
rung_place-le t = ground arith

pub higher_tier-above :
    (a b : Option EuAiActTier)
    → (rung_place (higher_tier a b) ≤ rung_place a) × (rung_place (higher_tier a b) ≤ rung_place b)
unfolding higher_tier
higher_tier-above none none = ground arith
higher_tier-above none (some b) = (rung_place-le b, ground arith)
higher_tier-above (some a) none = (ground arith, rung_place-le a)
higher_tier-above (some a) (some b) =
    elim (Bool-cases (leb (tier_precedence a) (tier_precedence b))) [
      | inl k ↦ rw k (ground arith)
      | inr k ↦ rw k (ground arith)
    ]

pub higher_tier-prohibited :
    (a b : Option EuAiActTier)
    → is_prohibited a ≡ false
    → is_prohibited (higher_tier a b) ≡ true
    → is_prohibited b ≡ true
higher_tier-prohibited a b calm h = elim (higher_tier-one_of a b) [ inl e ↦ cc | inr e ↦ rw e at h ]

pub note_option-highest_rung :
    (q_code o_code : String) (opt : DecisionTreeOption) (w : Gathered)
    → (note_option q_code o_code opt w).highest_rung ≡ higher_tier w.highest_rung opt.asserts_rung
unfolding note_option assert_rung
note_option-highest_rung q_code o_code opt w = elim (Option-cases opt.asserts_rung) [
  | inl silent ↦ rw silent (sym (higher_tier-none w.highest_rung))
  | inr (rung, asserted) ↦
      elim (Bool-cases (same_tier (higher_tier w.highest_rung (some rung)) w.highest_rung)) [
        | inl same ↦ rw (asserted, same) (sym (same_tier-≡ _ _ same))
        | inr other ↦ rw (asserted, other) refl
      ]
]

-- The rung is where the walk began or one that an answer asserts, and none is above it.
pub record IsTop (lookup : List (String × List (String × DecisionTreeOption)))
    (start : Option EuAiActTier) (entries : List (String × String)) (top : Option EuAiActTier)
    : Type 0 where
  pub attained :
      (top ≡ start) ⊎ (any_row (λ entry. same_tier (rung_of lookup entry) top) entries ≡ true)
  pub above_start : rung_place top ≤ rung_place start
  pub above : All (λ entry. rung_place top ≤ rung_place (rung_of lookup entry)) entries
  pub calm : is_prohibited start ≡ false → is_prohibited top ≡ false
