-- ===== src/Platform/Lawful.antt =====
-- What every request of app/services/lifecycle_service.py, app/services/authorisation_service.py and
-- app/services/assessment_review_service.py is to leave of a session.
use aigov.Lifecycle.Frame.{set_values-id, set_values-state, set_values-tenant_id}
use aigov.Lifecycle.Legality.{Event, is_legal}
use aigov.Lifecycle.Resting.{apply_transition-of_legal}
use aigov.Lifecycle.Sound.{apply_transition-Keeps}
use aigov.Lifecycle.Trail.{IsSound}
use aigov.Lifecycle.Transition.{apply_transition, commit_transition, row_matches, set_values}
use aigov.Model.Enums.Lifecycle.{LifecycleState, lifecycle_state_eq}
use aigov.Model.Rows.Domain.{UseCase}
use aigov.Model.Rows.Lifecycle.{DeploymentAuthorisation}
use aigov.Model.Session.{Session}
use aigov.Prelude.{
  All, All-update_rows, Bool, Bool-cases, Keeps, List, Message, Option, any_row, arith, false, inl,
  inr, nat_eq, not, refl, true, ℕ, ◌&&◌, ◌==◌, ◌||◌, ◌≡◌,
}

-- An authorisation of the use case, of whichever round.
abbrev pub is_grant_of : ℕ → ℕ → DeploymentAuthorisation → Bool
is_grant_of use_case_id tenant_id row = row.use_case_id == use_case_id && row.tenant_id == tenant_id

-- An authorised use case has an authorisation that somebody has signed.
abbrev pub is_granted : List DeploymentAuthorisation → UseCase → Bool
is_granted rows u =
    not (u.state == LifecycleState.authorised) || any_row (is_grant_of u.id u.tenant_id) rows

abbrev pub HasGrants : Session → Type 0
HasGrants db = All (λ u. is_granted db.authorisations u ≡ true) db.use_cases

pub record IsLawful (db : Session) : Type 0 where
  pub sound : IsSound db
  pub granted : HasGrants db

-- The laws are on three of the tables.
pub IsLawful-same :
    (db db' : Session)
    → db'.use_cases ≡ db.use_cases
    → db'.transitions ≡ db.transitions
    → db'.authorisations ≡ db.authorisations
    → IsLawful db
    → IsLawful db'
IsLawful-same db db' e f g h = record {
  sound = record {
    keyed = rw e h.sound.keyed;
    traced = rw (e, f) h.sound.traced;
    hinted = rw e h.sound.hinted;
  };
  granted = rw (e, g) h.granted;
}

-- The rows after a move, where the moved one is granted if it has come to AUTHORISED.
HasGrants-commit_transition :
    (u : UseCase) (e : Event) (t : LifecycleState) (actor : ℕ) (reason held : Option Message)
    (db : Session)
    → not (t == LifecycleState.authorised)
        || any_row (is_grant_of u.id u.tenant_id) db.authorisations
      ≡ true
    → HasGrants db
    → HasGrants (commit_transition u e t actor reason held db)
unfolding commit_transition
HasGrants-commit_transition u e t actor reason held db ready h =
    All-update_rows (λ r. is_granted db.authorisations r ≡ true)
      (λ r. is_granted db.authorisations r ≡ true) (row_matches u) (set_values u.state e t held)
      (λ r hit _. moved r hit) (λ r _ k. k) db.use_cases h
  where
    moved :
        (r : UseCase)
        → row_matches u r ≡ true
        → is_granted db.authorisations (set_values u.state e t held r) ≡ true
    moved r hit =
        let same : r.id ≡ u.id = ground arith in
        let tenant : r.tenant_id ≡ u.tenant_id = ground arith in
        rw
          (
            set_values-state u.state e t held r,
            set_values-id u.state e t held r,
            set_values-tenant_id u.state e t held r,
            same,
            tenant,
          )
          ready

-- A move is lawful if it does not lead to AUTHORISED, or if there is an authorisation.
pub apply_transition-IsLawful :
    (u : UseCase) (e : Event) (t : LifecycleState) (actor : ℕ) (reason held : Option Message)
    (db : Session)
    → not (t == LifecycleState.authorised)
        || any_row (is_grant_of u.id u.tenant_id) db.authorisations
      ≡ true
    → IsLawful db
    → IsLawful (apply_transition u e t actor reason held db).1
apply_transition-IsLawful u e t actor reason held db ready h = record {
  sound = (apply_transition-Keeps u e t actor reason held).at db h.sound;
  granted = elim (Bool-cases (is_legal u.state e t)) [
    | inr illegal ↦ unfold apply_transition in rw illegal h.granted
    | inl legal ↦ elim (Bool-cases (any_row (row_matches u) db.use_cases)) [
      | inr stale ↦ unfold apply_transition in rw (legal, stale) h.granted
      | inl fresh ↦
          rw (apply_transition-of_legal u e t actor reason held db legal fresh)
            (HasGrants-commit_transition u e t actor reason held db ready h.granted)
    ]
  ];
}

pub IsLawful-step :
    (u : UseCase) (e : Event) (t : LifecycleState) (actor : ℕ) (reason held : Option Message)
    → (t == LifecycleState.authorised) ≡ false
    → Keeps IsLawful (apply_transition u e t actor reason held)
IsLawful-step u e t actor reason held below = record {
  at = λ db. apply_transition-IsLawful u e t actor reason held db (rw below refl);
}
