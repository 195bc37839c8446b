-- ===== src/Authoring/Prefill.antt =====
-- What the pre-filling of a new assessment leaves of a session
-- (app/services/assessment_service.py).
use aigov.Authoring.Deletion.{is_worked}
use aigov.Authoring.Rows.{add_item}
use aigov.Items.{stage_audit}
use aigov.Model.Rows.Assessment.{AssessmentItem}
use aigov.Model.Rows.Lifecycle.{Detail}
use aigov.Model.Session.{Session, TenantContext}
use aigov.Prelude.{
  All, All-append, Keeps, List, String, [], any_row, ap, arith, false, holds, nat_eq, refl, sym, ℕ,
  ◌++◌, ◌==◌, ◌∙◌, ◌∷◌, ◌≡◌, ◌≤◌,
}
use mathlib.Core.List.{append-nil, append_assoc}

-- Nothing in the session refers to the id.
pub record IsUnused (db : Session) (id : ℕ) : Type 0 where
  pub no_assessment : any_row (λ row. row.id == id) db.assessments ≡ false
  pub no_item : any_row (λ item. item.assessment_id == id) db.items ≡ false
  pub no_review : any_row (λ row. row.assessment_id == id) db.reviews ≡ false
  pub no_authorisation : any_row (λ row. row.assessment_id == id) db.authorisations ≡ false
  pub no_control_link : any_row (λ link. link.item_id == id) db.item_controls ≡ false
  pub no_evidence_link : any_row (λ link. link.item_id == id) db.item_evidence ≡ false
  pub no_feeder : any_row (λ row. holds row.parent_aiia_id id) db.assessments ≡ false

-- No link is to an item with the id.
pub record IsUnlinked (db : Session) (id : ℕ) : Type 0 where
  pub controls : any_row (λ link. link.item_id == id) db.item_controls ≡ false
  pub evidence : any_row (λ link. link.item_id == id) db.item_evidence ≡ false

abbrev pub HasUnlinkedSupply : Session → Type 0
HasUnlinkedSupply db = (n : ℕ) → db.drawn ≤ n → IsUnlinked db (db.uuids n)

-- The supply gives ids that nothing refers to.
abbrev pub HasUnusedSupply : Session → Type 0
HasUnusedSupply db = (n : ℕ) → db.drawn ≤ n → IsUnused db (db.uuids n)

-- An item of a new assessment, on which nobody has worked.
pub record IsBlank (id : ℕ) (before : Session) (item : AssessmentItem) : Type 0 where
  pub belongs : item.assessment_id ≡ id
  pub unworked : is_worked item ≡ false
  pub uncontrolled : any_row (λ link. link.item_id == item.id) before.item_controls ≡ false
  pub unevidenced : any_row (λ link. link.item_id == item.id) before.item_evidence ≡ false

pub record Prefilled (id : ℕ) (before after : Session) : Type 0 where
  pub added : List AssessmentItem
  pub items : after.items ≡ before.items ++ added
  pub blank : All (IsBlank id before) added
  pub uuids : after.uuids ≡ before.uuids
  pub drawn : before.drawn ≤ after.drawn
  pub assessments : after.assessments ≡ before.assessments
  pub reviews : after.reviews ≡ before.reviews
  pub authorisations : after.authorisations ≡ before.authorisations
  pub item_controls : after.item_controls ≡ before.item_controls
  pub item_evidence : after.item_evidence ≡ before.item_evidence

pub Prefilled-refl : (id : ℕ) (db : Session) → Prefilled id db db
Prefilled-refl id db = record {
  added = [];
  items = sym (append-nil db.items);
  blank = tt;
  uuids = refl;
  drawn = omega arith;
  assessments = refl;
  reviews = refl;
  authorisations = refl;
  item_controls = refl;
  item_evidence = refl;
}

module _ (id : ℕ) (before : Session) (fresh : HasUnlinkedSupply before) where
  pub add_item-Prefilled :
      (item_with : ℕ → AssessmentItem)
      → ((n : ℕ) → (item_with n).id ≡ n)
      → ((n : ℕ) → (item_with n).assessment_id ≡ id)
      → ((n : ℕ) → is_worked (item_with n) ≡ false)
      → Keeps (Prefilled id before) (add_item item_with)
  add_item-Prefilled item_with own belongs unworked = record {
    at = λ db h.
        let n = db.drawn in
        let item = item_with (db.uuids n) in
        let named : item.id ≡ before.uuids n = own (db.uuids n) ∙ ap (λ (f : ℕ → ℕ). f n) h.uuids in
        let free = fresh n h.drawn in
        record {
          added = h.added ++ item ∷ [];
          items = rw h.items (append_assoc before.items h.added (item ∷ []));
          blank = All-append (IsBlank id before) h.added (item ∷ []) h.blank (
            record {
              belongs = belongs (db.uuids n);
              unworked = unworked (db.uuids n);
              uncontrolled = rw named free.controls;
              unevidenced = rw named free.evidence;
            },
            tt,
          );
          uuids = h.uuids;
          drawn = omega (arith, h.drawn);
          assessments = h.assessments;
          reviews = h.reviews;
          authorisations = h.authorisations;
          item_controls = h.item_controls;
          item_evidence = h.item_evidence;
        };
  }

  pub stage_audit-Prefilled :
      (ctx : TenantContext) (action entity_type : String) (entity_id : ℕ)
      (detail : List (String × Detail))
      → Keeps (Prefilled id before) (stage_audit ctx action entity_type entity_id detail)
  stage_audit-Prefilled ctx action entity_type entity_id detail = record {
    at = λ db h. record {
      added = h.added;
      items = h.items;
      blank = h.blank;
      uuids = h.uuids;
      drawn = omega (arith, h.drawn);
      assessments = h.assessments;
      reviews = h.reviews;
      authorisations = h.authorisations;
      item_controls = h.item_controls;
      item_evidence = h.item_evidence;
    };
  }
