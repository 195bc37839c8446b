-- ===== src/Review/Locking.antt =====
-- The lock version of an assessment through the conditional update of
-- app/services/assessment_review_service.py.
use aigov.Model.Enums.Assessment.{AssessmentStatus, assessment_status_eq}
use aigov.Model.Rows.Assessment.{Assessment}
use aigov.Model.Session.{Session, TenantContext, get_assessment}
use aigov.Prelude.{
  All, All-find?, All-update_rows, Bool, Bool-cases, Error, IsKeyedBy, List, Option, any_row,
  any_row-of_All, arith, attribute_error, err, false, find?-holds, find?-update_rows, if◌then◌else◌,
  inl, inr, nat_eq, none, ok, or_error-ok, refl, sole_row, some, some_eq, sym, true, updated_row, ℕ,
  ◌+◌, ◌==◌, ◌∙◌, ◌≡◌, ◌≢◌,
}
use aigov.Review.Update.{
  apply_update, bumped, conditional_status_update, stale_if_match, update_applies,
}

-- `id` is the primary key.
abbrev pub HasKeys : Session → Type 0
HasKeys db = IsKeyedBy (λ (row : Assessment). row.id) db.assessments

-- The values that an operation writes leave the key alone.
abbrev pub KeepsId : (Assessment → Assessment) → Type 0
KeepsId values = (r : Assessment) → (values r).id ≡ r.id

-- What the condition of the UPDATE says of a row that satisfies it.
pub record Applies (a : Assessment) (ctx : TenantContext) (expected : ℕ)
    (from_statuses : List AssessmentStatus) (row : Assessment) : Type 0 where
  pub same_id : row.id ≡ a.id
  pub own_tenant : row.tenant_id ≡ ctx.tenant_id
  pub unlocked : row.lock_version ≡ expected
  pub in_status : any_row (λ s. s == row.status) from_statuses ≡ true

pub update_applies-Applies :
    (a : Assessment) (ctx : TenantContext) (expected : ℕ) (from_statuses : List AssessmentStatus)
    (row : Assessment)
    → update_applies a ctx expected from_statuses row ≡ true
    → Applies a ctx expected from_statuses row
update_applies-Applies a ctx expected from_statuses row h = record {
  same_id = ground arith;
  own_tenant = ground arith;
  unlocked = ground arith;
  in_status = ground arith;
}

-- What a conditional update that returned has done: the row of the assessment was found with the
-- expected version in one of the statuses, and the row that is now found is the one returned, as
-- `bumped` makes it.
pub record Updated (a : Assessment) (ctx : TenantContext) (expected : ℕ)
    (from_statuses : List AssessmentStatus) (values : Assessment → Assessment) (db : Session)
    (b : Assessment) (db' : Session) : Type 0 where
  pub row : Assessment
  pub found : get_assessment db a.id ≡ some row
  pub matched : update_applies a ctx expected from_statuses row ≡ true
  pub applies : Applies a ctx expected from_statuses row
  pub returned : b ≡ bumped values row
  pub stored : get_assessment db' a.id ≡ some b
  pub session : db' ≡ apply_update a ctx expected from_statuses values db

not_ok : {A : Type 0} (e : Error) {b : A} → err e ≢ ok b
not_ok e h = cc

updated_from :
    (q : Assessment → Bool) (f : Assessment → Assessment) (o : Option Assessment) {b : Assessment}
    → updated_row q f o ≡ some b
    → (r : Assessment) × (o ≡ some r) × ((if q r then f r else r) ≡ b)
updated_from q f none h = cc
updated_from q f (some r) h = (r, refl, some_eq h)

next_version : {m n : ℕ} → m ≡ n → (m + 1 == n) ≡ false
next_version e = ground arith

module _ (a : Assessment) (ctx : TenantContext) (expected : ℕ)
    (from_statuses : List AssessmentStatus) (values : Assessment → Assessment)
    (keeps : KeepsId values) (db : Session) (keys : HasKeys db) where
  sole :
      any_row (update_applies a ctx expected from_statuses) db.assessments ≡ true
      → All
          (λ r. update_applies a ctx expected from_statuses r ≡ false → (r.id == a.id) ≡ false)
          db.assessments
  sole hit =
      sole_row (λ row. row.id) (update_applies a ctx expected from_statuses) a.id
        (λ r h. ground arith) db.assessments keys hit

  stored_row :
      get_assessment (apply_update a ctx expected from_statuses values db) a.id
      ≡ updated_row
          (update_applies a ctx expected from_statuses)
          (bumped values)
          (get_assessment db a.id)
  unfolding apply_update
  stored_row =
      find?-update_rows (λ row. row.id == a.id) (update_applies a ctx expected from_statuses)
        (bumped values) (λ r. rw (keeps r)) db.assessments

  row_applies :
      (r : Assessment)
      → any_row (update_applies a ctx expected from_statuses) db.assessments ≡ true
      → get_assessment db a.id ≡ some r
      → update_applies a ctx expected from_statuses r ≡ true
  row_applies r hit found = elim (Bool-cases (update_applies a ctx expected from_statuses r)) [
    | inl applies ↦ applies
    | inr misses ↦
        let other = All-find? _ (λ row. row.id == a.id) db.assessments (sole hit) found misses in
        let same = find?-holds (λ row. row.id == a.id) db.assessments r found in absurd (cc)
  ]

  -- Ids of assessments being unique and the values leaving the id alone: a conditional update that
  -- returns has found the row of the assessment in the own tenant, with the expected lock version
  -- and in one of the statuses, and has left it as `bumped` makes it, which is what it returns;
  -- nothing else in the session has changed.
  pub conditional_status_update-Updated :
      (b : Assessment)
      → (conditional_status_update a ctx expected from_statuses values db).0 ≡ ok b
      → Updated a ctx expected from_statuses values db b
          (conditional_status_update a ctx expected from_statuses values db).1
  unfolding conditional_status_update
  conditional_status_update-Updated b h =
      elim (Bool-cases (any_row (update_applies a ctx expected from_statuses) db.assessments)) [
        | inr miss ↦ absurd (not_ok _ (rw miss at h))
        | inl hit ↦
            let stored = or_error-ok attribute_error _ (rw hit at h) in
            let (row, found, returned) =
              updated_from (update_applies a ctx expected from_statuses) (bumped values)
                (get_assessment db a.id) (sym stored_row ∙ stored) in
            rw hit record {
              row = row;
              found = found;
              matched = row_applies row hit found;
              applies =
                  update_applies-Applies a ctx expected from_statuses row
                    (row_applies row hit found);
              returned = sym (rw (row_applies row hit found) at returned);
              stored = stored;
              session = refl;
            }
      ]

  taken :
      (a' : Assessment) (ctx' : TenantContext) (from' : List AssessmentStatus)
      → a'.id ≡ a.id
      → any_row (update_applies a ctx expected from_statuses) db.assessments ≡ true
      → any_row
          (update_applies a' ctx' expected from')
          (apply_update a ctx expected from_statuses values db).assessments
        ≡ false
  unfolding apply_update
  taken a' ctx' from' same hit = any_row-of_All (update_applies a' ctx' expected from') _ (
      All-update_rows
        (λ r. update_applies a ctx expected from_statuses r ≡ false → (r.id == a.id) ≡ false)
        (λ r. update_applies a' ctx' expected from' r ≡ false)
        (update_applies a ctx expected from_statuses) (bumped values) (λ r h _. ground arith)
        (λ r h other. let miss = other h in rw (same, miss)) db.assessments (sole hit))

  -- Ids of assessments being unique and the values leaving the id alone: once a conditional update
  -- with an expected lock version has returned, every other one on the same assessment that
  -- expects that version, whoever calls it, with whatever statuses and values and however old the
  -- object is that it holds, raises the stale If-Match error and changes nothing.
  pub conditional_status_update-Exclusive :
      (b : Assessment)
      → (conditional_status_update a ctx expected from_statuses values db).0 ≡ ok b
      → (a' : Assessment) (ctx' : TenantContext) (from' : List AssessmentStatus)
        (values' : Assessment → Assessment)
      → a'.id ≡ a.id
      → conditional_status_update a' ctx' expected from' values'
          (conditional_status_update a ctx expected from_statuses values db).1
        ≡ (err stale_if_match, (conditional_status_update a ctx expected from_statuses values db).1)
  unfolding conditional_status_update
  conditional_status_update-Exclusive b h a' ctx' from' values' same =
      elim (Bool-cases (any_row (update_applies a ctx expected from_statuses) db.assessments)) [
        | inr miss ↦ absurd (not_ok _ (rw miss at h))
        | inl hit ↦
            let done = conditional_status_update-Updated b h in
            let stored = or_error-ok attribute_error _ (rw hit at h) in
            let moved_on : (b.lock_version == expected) ≡ false =
              rw done.returned (next_version done.applies.unlocked) in
            rw (hit, taken a' ctx' from' same hit, same) rw (stored, moved_on)
      ]
