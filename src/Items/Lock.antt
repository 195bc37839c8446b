-- ===== src/Items/Lock.antt =====
-- The authoring lock and the operations on an item (app/services/assessment_service.py).
use aigov.Items.{
  assert_authoring_unlocked, assessment_by_id, authoring_locked, confirm_item, delete_item,
  is_locking, load_item, parent_or_self,
}
use aigov.Model.Enums.Assessment.{AssessmentStatus}
use aigov.Model.Rows.Assessment.{Assessment, AssessmentItem}
use aigov.Model.Session.{Session, TenantContext}
use aigov.Prelude.{
  Bool, Bool-cases, Error, List, Option, [], and_then-ok, any_row, arith, attribute_error, false,
  find?, find?-holds, guard, inl, inr, nat_eq, none, not, ok, ok_eq, or_error-ok, refl, some, sym,
  true, where_rows, ℕ, ◌&&◌, ◌==◌, ◌∷◌, ◌≡◌, ◌≢◌, ◌⊎◌,
}

-- What the lock lets through: an item of the tenant, with its assessment and the AIIA of this, which
-- is the parent where the assessment has one.
pub record Unlocked (item_id : ℕ) (ctx : TenantContext) (db : Session) : Type 0 where
  pub item : AssessmentItem
  pub a : Assessment
  pub aiia : Assessment
  pub found :
      find? (λ row. row.id == item_id && row.tenant_id == ctx.tenant_id) db.items ≡ some item
  pub id : item.id ≡ item_id
  pub tenant_id : item.tenant_id ≡ ctx.tenant_id
  pub of_item : find? (λ row. row.id == item.assessment_id) db.assessments ≡ some a
  pub surfaces_into :
      ((a.parent_aiia_id ≡ none) × (aiia ≡ a))
      ⊎ ((parent_id : ℕ) × (a.parent_aiia_id ≡ some parent_id)
          × (find? (λ row. row.id == parent_id) db.assessments ≡ some aiia))
  pub not_in_review : aiia.status ≢ AssessmentStatus.in_review
  pub not_approved : aiia.status ≢ AssessmentStatus.approved

guard_last : (b : Bool) (e : Error) (s : Session) {u : Unit {0}} → (guard b e s).0 ≡ ok u → b ≡ true
guard_last true e s h = refl
guard_last false e s h = cc

-- The parent of a feeder, and an AIIA itself.
surfaces :
    (parent_id : Option ℕ) (a aiia : Assessment) (db : Session)
    → elim parent_id [ none ↦ ok a | some id ↦ assessment_by_id id db ] ≡ ok aiia
    → ((parent_id ≡ none) × (aiia ≡ a))
      ⊎ ((id : ℕ) × (parent_id ≡ some id)
          × (find? (λ row. row.id == id) db.assessments ≡ some aiia))
surfaces none a aiia db h = inl (refl, ok_eq (sym h))
surfaces (some id) a aiia db h = inr (id, refl, or_error-ok attribute_error _ h)

unlocked_status :
    (s : AssessmentStatus)
    → not (is_locking s) ≡ true
    → (s ≢ AssessmentStatus.in_review) × (s ≢ AssessmentStatus.approved)
unlocked_status AssessmentStatus.draft h = (λ e. cc, λ e. cc)
unlocked_status AssessmentStatus.in_review h = cc
unlocked_status AssessmentStatus.approved h = cc
unlocked_status AssessmentStatus.needs_refresh h = (λ e. cc, λ e. cc)

-- What follows from an item that was loaded and is not locked.
pub Unlocked-of_guard :
    (item_id : ℕ) (ctx : TenantContext) (db : Session) (item : AssessmentItem)
    → load_item item_id ctx db ≡ ok item
    → (assert_authoring_unlocked item.assessment_id db).0 ≡ ok tt
    → (u : Unlocked item_id ctx db) × (u.item ≡ item)
unfolding load_item assert_authoring_unlocked
Unlocked-of_guard item_id ctx db item loaded passed =
    let (a, of_item, h2) = and_then-ok _ (assessment_by_id item.assessment_id db) db passed in
    let (aiia, parent, h3) = and_then-ok _ (parent_or_self a db) db h2 in
    let (not_in_review, not_approved) =
      unlocked_status aiia.status
        (guard_last (not (is_locking aiia.status)) authoring_locked db h3) in
    let found = or_error-ok _ _ loaded in
    let own = find?-holds _ db.items item found in
    (
      record {
        item = item;
        a = a;
        aiia = aiia;
        found = found;
        id = ground arith;
        tenant_id = ground arith;
        of_item = or_error-ok _ _ of_item;
        surfaces_into = surfaces a.parent_aiia_id a aiia db parent;
        not_in_review = not_in_review;
        not_approved = not_approved;
      },
      refl,
    )

-- A confirmation that returns was of an item of the own tenant whose AIIA is neither in review nor
-- approved: the AIIA is the item's assessment where this has no parent, and the parent of the
-- assessment otherwise.
pub confirm_item-Unlocked :
    (item_id expected : ℕ) (ctx : TenantContext) (db : Session) (b : AssessmentItem)
    → (confirm_item item_id expected ctx db).0 ≡ ok b
    → Unlocked item_id ctx db
unfolding confirm_item
confirm_item-Unlocked item_id expected ctx db b h =
    let (item, loaded, h1) = and_then-ok _ (load_item item_id ctx db) db h in
    let check = assert_authoring_unlocked item.assessment_id db in
    let (_, passed, _) = and_then-ok _ check.0 check.1 h1 in
    (Unlocked-of_guard item_id ctx db item loaded passed).0

gone :
    (i : ℕ) (rows : List AssessmentItem)
    → any_row (λ row. row.id == i) (where_rows (λ row. not (row.id == i)) rows) ≡ false
gone i [] = refl
gone i (row ∷ rows) = elim (Bool-cases (row.id == i)) [
  | inl hit ↦ rw hit (gone i rows)
  | inr miss ↦ rw (miss, miss) (gone i rows)
]

-- A deletion of an item of the own tenant returns, whatever the status of its assessment or of the
-- AIIA that this surfaces into, the approved and the one in review included, and no item with that
-- id is left.
pub delete_item-ignores_lock :
    (item_id : ℕ) (ctx : TenantContext) (db : Session) (item : AssessmentItem)
    → load_item item_id ctx db ≡ ok item
    → ((delete_item item_id ctx db).0 ≡ ok tt)
      × (any_row (λ row. row.id == item.id) (delete_item item_id ctx db).1.items ≡ false)
unfolding delete_item
delete_item-ignores_lock item_id ctx db item loaded = rw loaded (refl, gone item.id db.items)
