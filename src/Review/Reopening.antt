-- ===== src/Review/Reopening.antt =====
-- What a reopening (app/services/assessment_review_service.py) means for the lifecycle
-- (app/services/lifecycle_service.py).
use aigov.Gates.Readiness.{classification_readiness}
use aigov.Gates.Structure.{advances, assessment_approved, assessment_gate, current_aiia}
use aigov.Lifecycle.Advance.{must_halt}
use aigov.Lifecycle.Arrival.{Moved, Succeeds}
use aigov.Lifecycle.Fixpoint.{re_evaluate-settled}
use aigov.Lifecycle.ReEvaluate.{full_vector, re_evaluate, target_from_vector}
use aigov.Lifecycle.Resting.{IsFresh}
use aigov.Lifecycle.Settling.{settled, settled_state}
use aigov.Lifecycle.Target.{target}
use aigov.Model.Enums.Assessment.{
  AssessmentStatus, AssessmentType, assessment_status_eq, assessment_type_eq,
}
use aigov.Model.Enums.Lifecycle.{LifecycleState}
use aigov.Model.Rows.Assessment.{Assessment}
use aigov.Model.Rows.Domain.{UseCase}
use aigov.Model.Session.{Session, TenantContext}
use aigov.Prelude.{
  Bool, [], and_then-of_ok, and_then-ok, any_row, ap, arith, false, find?-update_rows, is_none,
  is_some, nat_eq, ok, ok_eq, refl, some, some_eq, sym, true, ℕ, ◌&&◌, ◌==◌, ◌∙◌, ◌∷◌, ◌≡◌,
}
use aigov.Review.{load_assessment, reopen, with_status}
use aigov.Review.Cycle.{load_assessment-get_assessment}
use aigov.Review.Locking.{HasKeys, conditional_status_update-Updated}
use aigov.Review.Update.{apply_update, bumped, conditional_status_update, update_applies}
use mathlib.Core.Path.{subst}

abbrev pub needs_refresh_values : Assessment → Assessment
needs_refresh_values = with_status AssessmentStatus.needs_refresh

-- What a reopening that returned leaves.
pub record Reopened (a : Assessment) (db : Session) (b : Assessment) (db' : Session) : Type 0 where
  pub was : a.status ≡ AssessmentStatus.approved
  pub result : b ≡ bumped needs_refresh_values a
  pub aiia : (u : UseCase) → current_aiia u db ≡ some a → current_aiia u db' ≡ some b
  pub use_cases : db'.use_cases ≡ db.use_cases
  pub classifications : db'.classifications ≡ db.classifications

only_approved :
    (s : AssessmentStatus)
    → any_row (λ t. t == s) (AssessmentStatus.approved ∷ []) ≡ true
    → s ≡ AssessmentStatus.approved
only_approved s h = (assessment_status_eq.beq_iff s AssessmentStatus.approved).0 (ground arith)

aiia_after :
    (u : UseCase) (a a' : Assessment) (ctx : TenantContext) (expected : ℕ) (db : Session)
    → update_applies a' ctx expected (AssessmentStatus.approved ∷ []) a ≡ true
    → current_aiia u db ≡ some a
    → current_aiia u
        (apply_update a' ctx expected (AssessmentStatus.approved ∷ []) needs_refresh_values db)
      ≡ some (bumped needs_refresh_values a)
unfolding apply_update
aiia_after u a a' ctx expected db matched found =
    find?-update_rows
      (λ row.
        row.use_case_id == u.id
        && row.tenant_id == u.tenant_id
        && row.type == AssessmentType.aiia
        && is_none row.parent_aiia_id)
      (update_applies a' ctx expected (AssessmentStatus.approved ∷ []))
      (bumped needs_refresh_values) (λ r. refl) db.assessments
    ∙ (rw (found, matched) refl)

reopened :
    (assessment_id expected : ℕ) (ctx : TenantContext) (db : Session) (a updated : Assessment)
    → HasKeys db
    → load_assessment assessment_id ctx db ≡ ok a
    → (conditional_status_update a ctx expected
        (AssessmentStatus.approved ∷ [])
        needs_refresh_values
        db).0
      ≡ ok updated
    → Reopened a db updated (reopen assessment_id expected ctx db).1
unfolding reopen
reopened assessment_id expected ctx db a updated keys loaded done =
    let u' =
      conditional_status_update-Updated a ctx expected (AssessmentStatus.approved ∷ [])
        needs_refresh_values (λ r. refl) db keys updated done in
    let same : u'.row ≡ a =
      some_eq (sym u'.found ∙ load_assessment-get_assessment assessment_id ctx db a keys loaded) in
    let result : updated ≡ bumped needs_refresh_values a =
      u'.returned ∙ ap (bumped needs_refresh_values) same in
    let matched =
      subst (λ r. update_applies a ctx expected (AssessmentStatus.approved ∷ []) r ≡ true) same
        u'.matched in
    let update =
      conditional_status_update a ctx expected (AssessmentStatus.approved ∷ []) needs_refresh_values
        db in
    rw loaded (
      subst (λ x. Reopened a db updated x.1) (sym (and_then-of_ok _ update done))
        record {
          was = only_approved a.status (rw (sym same) u'.applies.in_status);
          result = result;
          aiia =
              λ u found. rw (u'.session, result) (aiia_after u a a ctx expected db matched found);
          use_cases = rw u'.session refl;
          classifications = rw u'.session refl;
        })

-- A reopening returns only for an approved assessment of the own tenant; it then needs a refresh,
-- with the next lock version.
reopen-Reopened :
    (assessment_id expected : ℕ) (ctx : TenantContext) (db : Session) (a b : Assessment)
    → HasKeys db
    → load_assessment assessment_id ctx db ≡ ok a
    → (reopen assessment_id expected ctx db).0 ≡ ok b
    → Reopened a db b (reopen assessment_id expected ctx db).1
unfolding reopen
reopen-Reopened assessment_id expected ctx db a b keys loaded h =
    let update =
      conditional_status_update a ctx expected (AssessmentStatus.approved ∷ []) needs_refresh_values
        db in
    let (updated, done, h1) = and_then-ok _ update.0 update.1 (rw loaded at h) in
    subst (λ v. Reopened a db v (reopen assessment_id expected ctx db).1) (ok_eq h1)
      (reopened assessment_id expected ctx db a updated keys loaded done)

not_approved :
    (u : UseCase) (db : Session) (b : Assessment)
    → current_aiia u db ≡ some b
    → b.status ≡ AssessmentStatus.needs_refresh
    → advances (assessment_approved u db) ≡ false
unfolding assessment_approved
not_approved u db b found e = rw (found, e) refl

gate_shut :
    (u : UseCase) (db : Session)
    → advances (assessment_approved u db) ≡ false
    → advances (assessment_gate u db) ≡ false
unfolding assessment_gate
gate_shut u db h = ground arith

blocked :
    (u : UseCase) (db : Session)
    → advances (assessment_gate u db) ≡ false
    → is_some (target u db).1 ≡ true
unfolding full_vector target_from_vector
blocked u db h = ground arith

settled_authorised :
    (s : LifecycleState) (p : Bool) (t : LifecycleState) (b : Bool)
    → s ≡ LifecycleState.authorised
    → p ≡ false
    → b ≡ true
    → settled s p t b ≡ LifecycleState.held
unfolding settled
settled_authorised s p t b e c h = rw (e, c, h) refl

still_clear :
    (u : UseCase) (db db' : Session)
    → db'.classifications ≡ db.classifications
    → must_halt u db ≡ false
    → must_halt u db' ≡ false
unfolding classification_readiness
still_clear u db db' same clear = rw same clear

-- Ids of assessments being unique: after a reopening that returned, of the current AIIA of an
-- authorised use case whose row has not moved since it was read and that has no prohibited
-- snapshot, the next re-evaluation returns with the use case in HELD.
pub reopen-regresses :
    (assessment_id expected : ℕ) (ctx : TenantContext) (db : Session) (a b : Assessment)
    (u : UseCase) (actor : ℕ)
    → HasKeys db
    → load_assessment assessment_id ctx db ≡ ok a
    → current_aiia u db ≡ some a
    → (reopen assessment_id expected ctx db).0 ≡ ok b
    → IsFresh u db
    → u.state ≡ LifecycleState.authorised
    → must_halt u db ≡ false
    → Succeeds
        (re_evaluate u actor)
        (reopen assessment_id expected ctx db).1
        (Moved u (reopen assessment_id expected ctx db).1 LifecycleState.held)
reopen-regresses assessment_id expected ctx db a b u actor keys loaded aiia h fresh at clear =
    let done = reopen-Reopened assessment_id expected ctx db a b keys loaded h in
    let after = (reopen assessment_id expected ctx db).1 in
    let shut =
      blocked u after
        (gate_shut u after (not_approved u after b (done.aiia u aiia) (rw done.result refl))) in
    let settled_held : settled_state u after ≡ LifecycleState.held =
      settled_authorised u.state (must_halt u after) _ _ at
        (still_clear u db after done.classifications clear) shut in
    subst (λ s. Succeeds (re_evaluate u actor) after (Moved u after s)) settled_held
      (re_evaluate-settled u actor after (rw done.use_cases fresh) (rw at refl))
