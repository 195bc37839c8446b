-- ===== src/Authoring/RoundTrip.antt =====
-- What is linked can be unlinked (app/services/assessment_service.py).
use aigov.Authoring.Links.{
  control_by_id, create_control_link, delete_control_link, insert_control_link, is_link_between,
  own_control_link,
}
use aigov.Items.{assert_authoring_unlocked, load_item, stage_audit}
use aigov.Model.Enums.Knowledge.{CoverageStatus}
use aigov.Model.Rows.Assessment.{AssessmentItemControl}
use aigov.Model.Rows.Lifecycle.{Detail}
use aigov.Model.Session.{Session, TenantContext}
use aigov.Prelude.{
  After, After-returned, After-step, Bool, Bool-cases, Keeps, List, String, [], and_then, any_row,
  any_row-narrower, arith, beq_refl, false, find?, inl, inr, keeps_rules, nat_eq, not, ok, pure,
  refl, some, true, where_rows, ℕ, ◌&&◌, ◌++◌, ◌==◌, ◌>>◌, ◌∙◌, ◌∷◌, ◌≡◌,
}
use mathlib.Core.List.{append-nil}

-- The lock only reads.
pub assert_authoring_unlocked-same :
    (assessment_id : ℕ) (db : Session) → (assert_authoring_unlocked assessment_id db).1 ≡ db
unfolding assert_authoring_unlocked
assert_authoring_unlocked-same assessment_id db =
    let kept : Keeps (λ (s : Session). s ≡ db) (assert_authoring_unlocked assessment_id) =
      search keeps_rules in
    kept.at db refl

pub where_rows-none :
    {A : Type 0} (p : A → Bool) (rows : List A)
    → any_row p rows ≡ false
    → where_rows (λ r. not (p r)) rows ≡ rows
where_rows-none p [] h = refl
where_rows-none p (r ∷ rows) h = ground (arith, where_rows-none p rows)

pub where_rows-append :
    {A : Type 0} (p : A → Bool) (xs ys : List A)
    → where_rows p (xs ++ ys) ≡ where_rows p xs ++ where_rows p ys
where_rows-append p [] ys = refl
where_rows-append p (x ∷ xs) ys = ground (arith, where_rows-append p xs ys)

-- A row with a fresh key is removed again, and nothing else.
pub where_rows-fresh :
    {A : Type 0} (id : A → ℕ) (rows : List A) (a : A)
    → any_row (λ r. id r == id a) rows ≡ false
    → where_rows (λ r. not (id r == id a)) (rows ++ a ∷ []) ≡ rows
where_rows-fresh id rows a fresh =
    where_rows-append (λ r. not (id r == id a)) rows (a ∷ [])
    ∙ rw (where_rows-none (λ r. id r == id a) rows fresh, beq_refl (id a)) (append-nil rows)

pub find?-last :
    {A : Type 0} (p : A → Bool) (rows : List A) (a : A)
    → any_row p rows ≡ false
    → p a ≡ true
    → find? p (rows ++ a ∷ []) ≡ some a
find?-last p [] a none_before hit = rw hit refl
find?-last p (r ∷ rows) a none_before hit = ground (arith, find?-last p rows a)

-- What is left by the deletion of a link.
abbrev Unlinks :
    TenantContext → List AssessmentItemControl → AssessmentItemControl → Session → Type 0
Unlinks ctx rows link db =
    ((delete_control_link link.id ctx db).0 ≡ ok tt)
    × ((delete_control_link link.id ctx db).1.item_controls ≡ rows)

delete-last :
    (ctx : TenantContext) (db : Session) (rows : List AssessmentItemControl)
    (link : AssessmentItemControl)
    → link.tenant_id ≡ ctx.tenant_id
    → any_row (λ row. row.id == link.id) rows ≡ false
    → db.item_controls ≡ rows ++ link ∷ []
    → Unlinks ctx rows link db
unfolding delete_control_link
delete-last ctx db rows link own fresh e =
    let found : own_control_link link.id ctx db ≡ ok link =
      rw
        (
          e,
          find?-last (λ row. row.id == link.id && row.tenant_id == ctx.tenant_id) rows link
              (any_row-narrower (λ row. row.id == link.id) (λ row. row.tenant_id == ctx.tenant_id)
                rows fresh)
              (rw (own, beq_refl link.id, beq_refl ctx.tenant_id) refl),
        )
        refl in
    rw found (refl, rw e (where_rows-fresh (λ row. row.id) rows link fresh))

insert_control_link-Unlinks :
    (ctx : TenantContext) (item_id control_id : ℕ) (coverage : CoverageStatus)
    (detail : List (String × Detail)) (db : Session)
    → any_row (λ row. row.id == db.uuids db.drawn) db.item_controls ≡ false
    → After (Unlinks ctx db.item_controls) (
        and_then
          (λ link.
            stage_audit ctx "control_link.created" "assessment_item_control" link.id detail
            >> pure link)
          (insert_control_link ctx item_id control_id coverage db))
unfolding insert_control_link
insert_control_link-Unlinks ctx item_id control_id coverage detail db fresh =
    elim (Bool-cases (any_row (is_link_between item_id control_id) db.item_controls)) [
      | inl taken ↦ rw taken tt
      | inr vacant ↦ rw vacant (delete-last ctx _ db.item_controls _ refl fresh refl)
    ]

create_control_link-After :
    (item_id control_id : ℕ) (coverage : CoverageStatus) (ctx : TenantContext) (db : Session)
    → any_row (λ row. row.id == db.uuids db.drawn) db.item_controls ≡ false
    → After (Unlinks ctx db.item_controls) (create_control_link item_id control_id coverage ctx db)
unfolding create_control_link
create_control_link-After item_id control_id coverage ctx db fresh =
    let Q = Unlinks ctx db.item_controls in
    After-step Q _ (load_item item_id ctx db, db)
      λ item loaded. After-step Q _ (assert_authoring_unlocked item.assessment_id db) λ _ passed.
        rw (assert_authoring_unlocked-same item.assessment_id db) (
          After-step Q _ (control_by_id control_id db, db)
            λ control known. insert_control_link-Unlinks ctx item.id control_id coverage _ db fresh)

-- A link that was created can be deleted at once by its id, and the table of the links is then what
-- it was before, row for row. The new id is taken to be one that no link has.
pub delete_control_link-create_control_link :
    (item_id control_id : ℕ) (coverage : CoverageStatus) (ctx : TenantContext) (db : Session)
    (link : AssessmentItemControl)
    → any_row (λ row. row.id == db.uuids db.drawn) db.item_controls ≡ false
    → (create_control_link item_id control_id coverage ctx db).0 ≡ ok link
    → let linked = (create_control_link item_id control_id coverage ctx db).1 in
      ((delete_control_link link.id ctx linked).0 ≡ ok tt)
      × ((delete_control_link link.id ctx linked).1.item_controls ≡ db.item_controls)
delete_control_link-create_control_link item_id control_id coverage ctx db link fresh h =
    After-returned (Unlinks ctx db.item_controls)
      (create_control_link item_id control_id coverage ctx db)
      (create_control_link-After item_id control_id coverage ctx db fresh) h
