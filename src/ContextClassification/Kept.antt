-- ===== src/ContextClassification/Kept.antt =====
-- What an advance keeps of the classifications and of the tiers
-- (app/services/lifecycle_service.py).
use aigov.Lifecycle.Advance.{advance_use_case}
use aigov.Lifecycle.Kept.{advance_use_case-Keeps}
use aigov.Lifecycle.Legality.{Event, event_eq, is_legal}
use aigov.Lifecycle.Transition.{apply_transition, commit_transition, row_matches, set_values}
use aigov.Model.Enums.Lifecycle.{EuAiActTier, LifecycleState, lifecycle_state_eq}
use aigov.Model.Rows.Assessment.{Classification}
use aigov.Model.Rows.Domain.{UseCase}
use aigov.Model.Session.{Session}
use aigov.Prelude.{
  Bool, Bool-cases, Keeps, List, Message, Option, [], any_row, inl, inr, kept_if, map, nat_eq, not,
  refl, update_rows, ℕ, ◌==◌, ◌∙◌, ◌∷◌, ◌≡◌,
}

abbrev pub tier_entry : UseCase → ℕ × EuAiActTier
tier_entry u = (u.id, u.eu_tier)

-- The tiers of the use cases, row by row.
abbrev pub tiers_of : List UseCase → List (ℕ × EuAiActTier)
tiers_of rows = map tier_entry rows

map-update_rows :
    {A B : Type 0} (f : A → B) (p : A → Bool) (g : A → A)
    → ((r : A) → f (g r) ≡ f r)
    → (rows : List A) → map f (update_rows p g rows) ≡ map f rows
map-update_rows f p g same [] = refl
map-update_rows f p g same (r ∷ rows) =
    let rest = map-update_rows f p g same rows in
    elim (Bool-cases (p r)) [
      | inl hit ↦ rw (hit, same r, rest) refl
      | inr miss ↦ rw (miss, rest) refl
    ]

set_values-tier :
    (from : LifecycleState) (e : Event) (to : LifecycleState) (reason : Option Message)
    (u : UseCase)
    → tier_entry (set_values from e to reason u) ≡ tier_entry u
unfolding set_values
set_values-tier from e to reason u = elim (Bool-cases (e == Event.hold)) [
  | inl hold ↦ rw hold refl
  | inr other ↦ elim (Bool-cases (from == LifecycleState.held)) [
    | inl held ↦ rw (other, held) refl
    | inr free ↦ rw (other, free) refl
  ]
]

-- The classifications and the tiers are as given.
pub record IsRatedAs (rows : List Classification) (tiers : List (ℕ × EuAiActTier)) (s : Session)
    : Type 0 where
  pub classifications : s.classifications ≡ rows
  pub rated : tiers_of s.use_cases ≡ tiers

apply_transition-IsRatedAs :
    (rows : List Classification) (tiers : List (ℕ × EuAiActTier)) (u : UseCase) (e : Event)
    (t : LifecycleState) (actor : ℕ) (reason held : Option Message)
    → Keeps (IsRatedAs rows tiers) (apply_transition u e t actor reason held)
unfolding apply_transition commit_transition
apply_transition-IsRatedAs rows tiers u e t actor reason held = record {
  at = λ db h.
      let done : IsRatedAs rows tiers (commit_transition u e t actor reason held db) = record {
        classifications = h.classifications;
        rated =
            map-update_rows tier_entry (row_matches u) (set_values u.state e t held)
              (set_values-tier u.state e t held) db.use_cases
            ∙ h.rated;
      } in
      kept_if (IsRatedAs rows tiers) (not (is_legal u.state e t)) _ _ h
        (kept_if (IsRatedAs rows tiers) (not (any_row (row_matches u) db.use_cases)) _ _ h done);
}

pub advance_use_case-IsRatedAs :
    (rows : List Classification) (tiers : List (ℕ × EuAiActTier)) (u : UseCase) (actor : ℕ)
    → Keeps (IsRatedAs rows tiers) (advance_use_case u actor)
advance_use_case-IsRatedAs rows tiers =
    advance_use_case-Keeps (IsRatedAs rows tiers)
      (λ u e t actor reason held _. apply_transition-IsRatedAs rows tiers u e t actor reason held)
