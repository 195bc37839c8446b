-- ===== src/Authorisation/Ready.antt =====
-- What readiness for an authorisation says of the gates, and what the insert leaves of it.
use aigov.Authorisation.{add_authorisation, is_ready}
use aigov.Gates.Authorisation.{authorisation_gate, authorises}
use aigov.Gates.Clearance.{product_gate, vendor_gate}
use aigov.Gates.Frame.{SameFacts}
use aigov.Gates.Readiness.{classification_readiness}
use aigov.Gates.Structure.{advances, assessment_approved, assessment_gate}
use aigov.Gates.Treatment.{treatment_gate}
use aigov.Lifecycle.Advance.{must_halt}
use aigov.Lifecycle.ReEvaluate.{full_vector, target_from_vector}
use aigov.Lifecycle.Target.{target}
use aigov.Lifecycle.Transition.{row_matches}
use aigov.Model.Enums.Lifecycle.{LifecycleState, lifecycle_state_eq}
use aigov.Model.Rows.Assessment.{Assessment}
use aigov.Model.Rows.Domain.{UseCase}
use aigov.Model.Session.{Session, TenantContext}
use aigov.Prelude.{
  Bool, Bool-cases, List, String, [], any_row, any_row-last, ap, arith, false, find?, inl, inr,
  is_some, nat_eq, refl, some, some_eq, true, ◌∙◌, ◌∷◌, ◌≡◌,
}
use mathlib.Core.Bool.{or-true}

pub row_matches_refl : (u : UseCase) → row_matches u u ≡ true
row_matches_refl u = rw (
  (nat_eq.beq_iff u.id u.id).1 refl,
  (nat_eq.beq_iff u.tenant_id u.tenant_id).1 refl,
  (lifecycle_state_eq.beq_iff u.state u.state).1 refl,
)

-- A row that was just read is fresh.
pub find?-fresh :
    (p : UseCase → Bool) (u : UseCase) (rows : List UseCase)
    → find? p rows ≡ some u
    → any_row (row_matches u) rows ≡ true
find?-fresh p u [] h = cc
find?-fresh p u (r ∷ rows) h = elim (Bool-cases (p r)) [
  | inl hit ↦
      let e : r ≡ u = some_eq (rw hit at h) in rw (ap (row_matches u) e ∙ row_matches_refl u)
  | inr miss ↦ let rest = find?-fresh p u rows (rw miss at h) in rw rest (or-true (row_matches u r))
]

-- The gates below the authorisation do not read the table of authorisations.
pub add_authorisation-SameFacts :
    (u : UseCase) (a : Assessment) (statement : String) (ctx : TenantContext) (db : Session)
    → SameFacts u u db (add_authorisation u a statement ctx db).1
unfolding add_authorisation
add_authorisation-SameFacts u a statement ctx db = record {
  id = refl;
  tenant_id = refl;
  system_id = refl;
  eu_tier = refl;
  now = refl;
  systems = refl;
  vendor_approvals = refl;
  product_approvals = refl;
  operator_roles = refl;
  classifications = refl;
  assessments = refl;
  items = refl;
  item_controls = refl;
  systems_of = λ i. refl;
  categories = λ i. refl;
}

-- An authorisation of the tenant's own use case counts for the round that it was written in.
pub add_authorisation-authorises :
    (u : UseCase) (a : Assessment) (statement : String) (ctx : TenantContext) (db : Session)
    → ctx.tenant_id ≡ u.tenant_id
    → any_row
        (authorises u a.submission_round)
        (add_authorisation u a statement ctx db).1.authorisations
      ≡ true
unfolding add_authorisation
add_authorisation-authorises u a statement ctx db e =
    any_row-last (authorises u a.submission_round) db.authorisations _ (
      rw (
        (nat_eq.beq_iff u.id u.id).1 refl,
        (nat_eq.beq_iff ctx.tenant_id u.tenant_id).1 e,
        (nat_eq.beq_iff a.submission_round a.submission_round).1 refl,
      ))

-- Every gate of the vector advances.
pub record AllAdvance (u : UseCase) (db : Session) : Type 0 where
  pub vendor : advances (vendor_gate u db) ≡ true
  pub product : advances (product_gate u db) ≡ true
  pub intake : advances (classification_readiness u db) ≡ true
  pub assessment : advances (assessment_gate u db) ≡ true
  pub treatment : advances (treatment_gate u db) ≡ true

pub is_ready-AllAdvance :
    (u : UseCase) (db : Session)
    → is_ready u db ≡ true
    → (u.state ≡ LifecycleState.pending_authorisation) × AllAdvance u db
unfolding is_ready
is_ready-AllAdvance u db h = (
  (lifecycle_state_eq.beq_iff u.state LifecycleState.pending_authorisation).0 (ground arith),
  record {
    vendor = ground arith;
    product = ground arith;
    intake = ground arith;
    assessment = ground arith;
    treatment = ground arith;
  },
)

pub assessment_gate-approved :
    (u : UseCase) (db : Session)
    → advances (assessment_gate u db) ≡ true
    → advances (assessment_approved u db) ≡ true
unfolding assessment_gate
assessment_gate-approved u db h = ground arith

pub readiness-clear :
    (u : UseCase) (db : Session)
    → advances (classification_readiness u db) ≡ true
    → must_halt u db ≡ false
readiness-clear u db h = ground arith

pub unblocked :
    (u : UseCase) (db : Session)
    → AllAdvance u db
    → advances (authorisation_gate u db) ≡ true
    → is_some (target u db).1 ≡ false
unfolding full_vector target_from_vector
unblocked u db h k = rw (h.vendor, h.product, h.intake, h.assessment, h.treatment, k)
