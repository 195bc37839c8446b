-- ===== src/Gates/Frame.antt =====
-- What the gates read: two sessions and two copies of a use case that agree on it have the same
-- verdicts. The state of the use case is not among what they read.
use aigov.Gates.Authorisation.{authorisation_gate, cycle_verdict}
use aigov.Gates.Clearance.{product_gate, vendor_gate}
use aigov.Gates.Feeders.{FeederRecommendation, categories_of, feeder_recommendations_for, system_of}
use aigov.Gates.Readiness.{classification_readiness, current_snapshot, snapshot_verdict}
use aigov.Gates.Structure.{
  assessment_approved, assessment_gate, current_aiia, is_missing, structural_assessment_readiness,
  structure_from, structure_verdict,
}
use aigov.Gates.Treatment.{
  fault_or, needs_treatment, treatment_fault, treatment_gate, treatment_loop,
}
use aigov.Model.Enums.Assessment.{TreatmentDecision}
use aigov.Model.Rows.Assessment.{Assessment, AssessmentItem, Classification}
use aigov.Model.Rows.Domain.{UseCase}
use aigov.Model.Session.{Session, get_use_case}
use aigov.Prelude.{List, Option, [], none, refl, some, where_rows, ℕ, ◌∙◌, ◌∷◌, ◌≡◌}
use mathlib.Core.Path.{ap₂}

pub record SameFacts (u v : UseCase) (db db' : Session) : Type 0 where
  pub id : v.id ≡ u.id
  pub tenant_id : v.tenant_id ≡ u.tenant_id
  pub system_id : v.system_id ≡ u.system_id
  pub eu_tier : v.eu_tier ≡ u.eu_tier
  pub now : db'.now ≡ db.now
  pub systems : db'.systems ≡ db.systems
  pub vendor_approvals : db'.vendor_approvals ≡ db.vendor_approvals
  pub product_approvals : db'.product_approvals ≡ db.product_approvals
  pub operator_roles : db'.operator_roles ≡ db.operator_roles
  pub classifications : db'.classifications ≡ db.classifications
  pub assessments : db'.assessments ≡ db.assessments
  pub items : db'.items ≡ db.items
  pub item_controls : db'.item_controls ≡ db.item_controls
  pub systems_of : (i : ℕ) → system_of db' (get_use_case db' i) ≡ system_of db (get_use_case db i)
  pub categories :
      (i : ℕ) → categories_of db' (get_use_case db' i) ≡ categories_of db (get_use_case db i)

-- The authorisation gate reads one table more.
pub record SameReads (u v : UseCase) (db db' : Session) : Type 0 where
  pub facts : SameFacts u v db db'
  pub open facts use *
  pub authorisations : db'.authorisations ≡ db.authorisations

module _ {u v : UseCase} {db db' : Session} (same : SameFacts u v db db') where
  open same use {
    id, tenant_id, system_id, eu_tier, now, systems, vendor_approvals, product_approvals,
    operator_roles, classifications, assessments, items, item_controls, systems_of, categories,
  }

  pub vendor_gate-same : vendor_gate v db' ≡ vendor_gate u db
  unfolding vendor_gate
  vendor_gate-same = rw (systems, system_id, tenant_id, vendor_approvals, now)

  pub product_gate-same : product_gate v db' ≡ product_gate u db
  unfolding product_gate
  product_gate-same = rw (systems, system_id, tenant_id, product_approvals, now)

  snapshot_verdict-same : (c : Option Classification) → snapshot_verdict v c ≡ snapshot_verdict u c
  unfolding snapshot_verdict
  snapshot_verdict-same none = refl
  snapshot_verdict-same (some c) = rw eu_tier

  pub classification_readiness-same : classification_readiness v db' ≡ classification_readiness u db
  unfolding classification_readiness
  classification_readiness-same =
      rw (classifications, id) (snapshot_verdict-same (current_snapshot u db))

  pub current_aiia-same : current_aiia v db' ≡ current_aiia u db
  current_aiia-same = rw (assessments, id, tenant_id)

  feeders-same :
      (a : Assessment) → feeder_recommendations_for a db' ≡ feeder_recommendations_for a db
  unfolding feeder_recommendations_for
  feeders-same a = rw (systems_of, categories, assessments, operator_roles)

  structure_verdict-same :
      (l : List FeederRecommendation) → structure_verdict v db' l ≡ structure_verdict u db l
  unfolding structure_verdict
  structure_verdict-same [] = rw (items, assessments, id, tenant_id)
  structure_verdict-same (r ∷ l) = refl

  structure_from-same : (o : Option Assessment) → structure_from v db' o ≡ structure_from u db o
  unfolding structure_from
  structure_from-same none = refl
  structure_from-same (some a) =
      rw feeders-same
        (structure_verdict-same (where_rows is_missing (feeder_recommendations_for a db)))

  structural-same : structural_assessment_readiness v db' ≡ structural_assessment_readiness u db
  unfolding structural_assessment_readiness
  structural-same = rw current_aiia-same (structure_from-same (current_aiia u db))

  pub assessment_approved-same : assessment_approved v db' ≡ assessment_approved u db
  unfolding assessment_approved
  assessment_approved-same = rw current_aiia-same

  pub assessment_gate-same : assessment_gate v db' ≡ assessment_gate u db
  unfolding assessment_gate
  assessment_gate-same = rw (structural-same, assessment_approved-same)

  treatment_fault-same :
      (item : AssessmentItem) (d : Option TreatmentDecision)
      → treatment_fault db' item d ≡ treatment_fault db item d
  unfolding treatment_fault
  treatment_fault-same item none = refl
  treatment_fault-same item (some TreatmentDecision.mitigate) = rw item_controls
  treatment_fault-same item (some d) = refl

  treatment_loop-same : (l : List AssessmentItem) → treatment_loop db' l ≡ treatment_loop db l
  unfolding treatment_loop
  treatment_loop-same [] = refl
  treatment_loop-same (item ∷ rest) =
      ap₂ fault_or (treatment_fault-same item item.treatment_decision) (treatment_loop-same rest)

  pub treatment_gate-same : treatment_gate v db' ≡ treatment_gate u db
  unfolding treatment_gate
  treatment_gate-same =
      rw (items, assessments, id, tenant_id)
        (treatment_loop-same (where_rows (needs_treatment u db) db.items))

module _ {u v : UseCase} {db db' : Session} (same : SameReads u v db db') where
  cycle_verdict-same : (o : Option Assessment) → cycle_verdict v db' o ≡ cycle_verdict u db o
  unfolding cycle_verdict
  cycle_verdict-same none = refl
  cycle_verdict-same (some a) = rw (same.authorisations, same.id, same.tenant_id)

  pub authorisation_gate-same : authorisation_gate v db' ≡ authorisation_gate u db
  unfolding authorisation_gate
  authorisation_gate-same =
      rw (assessment_approved-same same.facts, current_aiia-same same.facts, cycle_verdict-same)

pub SameReads-refl : (u : UseCase) (db : Session) → SameReads u u db db
SameReads-refl u db = record {
  authorisations = refl;
  facts = record {
    id = refl;
    tenant_id = refl;
    system_id = refl;
    eu_tier = refl;
    now = refl;
    systems = refl;
    vendor_approvals = refl;
    product_approvals = refl;
    operator_roles = refl;
    classifications = refl;
    assessments = refl;
    items = refl;
    item_controls = refl;
    systems_of = λ i. refl;
    categories = λ i. refl;
  };
}

pub SameFacts-trans :
    {u v w : UseCase} {a b c : Session} → SameFacts u v a b → SameFacts v w b c → SameFacts u w a c
SameFacts-trans p q = record {
  id = q.id ∙ p.id;
  tenant_id = q.tenant_id ∙ p.tenant_id;
  system_id = q.system_id ∙ p.system_id;
  eu_tier = q.eu_tier ∙ p.eu_tier;
  now = q.now ∙ p.now;
  systems = q.systems ∙ p.systems;
  vendor_approvals = q.vendor_approvals ∙ p.vendor_approvals;
  product_approvals = q.product_approvals ∙ p.product_approvals;
  operator_roles = q.operator_roles ∙ p.operator_roles;
  classifications = q.classifications ∙ p.classifications;
  assessments = q.assessments ∙ p.assessments;
  items = q.items ∙ p.items;
  item_controls = q.item_controls ∙ p.item_controls;
  systems_of = λ i. q.systems_of i ∙ p.systems_of i;
  categories = λ i. q.categories i ∙ p.categories i;
}

pub SameReads-trans :
    {u v w : UseCase} {a b c : Session} → SameReads u v a b → SameReads v w b c → SameReads u w a c
SameReads-trans p q = record {
  facts = SameFacts-trans p.facts q.facts;
  authorisations = q.authorisations ∙ p.authorisations;
}
