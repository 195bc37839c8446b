-- ===== src/Lifecycle/Elsewhere.antt =====
-- A move of a use case writes three tables and draws ids: what is on other tables stays
-- (app/services/lifecycle_service.py).
use aigov.Lifecycle.Advance.{advance_use_case}
use aigov.Lifecycle.Kept.{advance_use_case-Keeps}
use aigov.Lifecycle.Legality.{Event, is_legal}
use aigov.Lifecycle.Transition.{
  apply_transition, commit_transition, row_matches, set_values, transition_event, transition_row,
}
use aigov.Model.Enums.Lifecycle.{LifecycleState}
use aigov.Model.Rows.Domain.{UseCase}
use aigov.Model.Rows.Lifecycle.{AuditEvent, LifecycleTransition}
use aigov.Model.Session.{Session}
use aigov.Prelude.{
  Keeps, List, Message, Option, [], any_row, kept_if, nat_eq, not, update_rows, ℕ, ◌++◌, ◌+◌, ◌∷◌,
}

-- The property does not look at the tables that a move writes.
pub record IsElsewhere (P : Session → Type 0) : Type 0 where
  pub moved :
      (db : Session) (rows : List UseCase) (trail : List LifecycleTransition)
      (events : List AuditEvent) (n : ℕ)
      → P db
      → P (record db { use_cases = rows; transitions = trail; audit_events = events; drawn = n })

module _ (P : Session → Type 0) (elsewhere : IsElsewhere P) where
  pub apply_transition-elsewhere :
      (u : UseCase) (e : Event) (t : LifecycleState) (actor : ℕ) (reason held : Option Message)
      → Keeps P (apply_transition u e t actor reason held)
  unfolding apply_transition commit_transition
  apply_transition-elsewhere u e t actor reason held = record {
    at = λ db h.
        let done =
          elsewhere.moved db
            (update_rows (row_matches u) (set_values u.state e t held) db.use_cases)
            (db.transitions ++ transition_row db u t actor reason ∷ [])
            (db.audit_events ++ transition_event db u e t actor ∷ []) (db.drawn + 2) h in
        kept_if P (not (is_legal u.state e t)) _ _ h
          (kept_if P (not (any_row (row_matches u) db.use_cases)) _ _ h done);
  }

  pub advance_use_case-elsewhere : (u : UseCase) (actor : ℕ) → Keeps P (advance_use_case u actor)
  advance_use_case-elsewhere =
      advance_use_case-Keeps P
        (λ u e t actor reason held _. apply_transition-elsewhere u e t actor reason held)
