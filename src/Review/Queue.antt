-- ===== src/Review/Queue.antt =====
-- `list_review_queue` of app/services/assessment_review_service.py, and what its query selects.
use aigov.Model.Enums.Assessment.{
  AssessmentStatus, AssessmentType, assessment_status_eq, assessment_type_eq,
}
use aigov.Model.Enums.Lifecycle.{EuAiActTier}
use aigov.Model.Rows.Assessment.{Assessment}
use aigov.Model.Rows.Lifecycle.{Membership, User}
use aigov.Model.Session.{Session, TenantContext}
use aigov.Prelude.{
  Bool, Bool-cases, List, Option, String, [], any_row, any_row-append, any_row-congr,
  any_row-join_rows, any_row-map, any_row-where_rows, ap, arith, false, holds, if◌then◌else◌, inl,
  inr, insert_by, is_none, is_some, join_rows, leb, map, nat_eq, none, not, order_by, refl, some,
  where_rows, ℕ, ◌&&◌, ◌++◌, ◌==◌, ◌||◌, ◌∙◌, ◌∷◌, ◌≡◌,
}

pub record ReviewQueueEntry : Type 0 where
  pub assessment_id : ℕ
  pub use_case_id : ℕ
  pub tier_snapshot : EuAiActTier
  pub submitted_by_name : Option String
  pub submitted_by_email : String
  pub submitted_at : Option ℕ

abbrev pub queue_entry : Assessment → User → ReviewQueueEntry
queue_entry a user = record {
  assessment_id = a.id;
  use_case_id = a.use_case_id;
  tier_snapshot = a.tier_snapshot;
  submitted_by_name = user.display_name;
  submitted_by_email = user.email;
  submitted_at = a.submitted_at;
}

-- `submitted_by_user_id != caller`, which no NULL meets.
abbrev pub is_by_another : TenantContext → Option ℕ → Bool
is_by_another ctx none = false
is_by_another ctx (some user_id) = not (user_id == ctx.user_id)

unfoldable pub is_queued : TenantContext → Assessment → Bool
is_queued ctx a =
    a.tenant_id == ctx.tenant_id
    && a.status == AssessmentStatus.in_review
    && a.type == AssessmentType.aiia
    && is_none a.parent_aiia_id
    && is_by_another ctx a.submitted_by_user_id

-- The join condition of a membership, and its condition on the tenant.
abbrev pub is_submitter : TenantContext → Assessment → Membership → Bool
is_submitter ctx a m = holds a.submitted_by_user_id m.user_id && m.tenant_id == ctx.tenant_id

abbrev pub entries_of : TenantContext → Session → Assessment → List ReviewQueueEntry
entries_of ctx db a =
    join_rows (λ m. map (queue_entry a) (where_rows (λ u. u.id == m.user_id) db.users))
      (where_rows (is_submitter ctx a) db.memberships)

-- The rows of the query that an assessment gives.
abbrev pub queue_entries : TenantContext → Session → Assessment → List ReviewQueueEntry
queue_entries ctx db a = if is_queued ctx a then entries_of ctx db a else []

abbrev pub instant_of : Option ℕ → ℕ
instant_of none = 0
instant_of (some t) = t

-- `order_by(submitted_at)`; NULL comes last.
abbrev pub by_submission : List ReviewQueueEntry → List ReviewQueueEntry
by_submission entries =
    order_by (λ e. instant_of e.submitted_at) (where_rows (λ e. is_some e.submitted_at) entries)
    ++ where_rows (λ e. not (is_some e.submitted_at)) entries

unfoldable pub list_review_queue : TenantContext → Session → List ReviewQueueEntry
unfolding is_queued
list_review_queue ctx db = by_submission (join_rows (queue_entries ctx db) db.assessments)

-- The submitter is a member of the tenant, and a user.
abbrev pub has_submitter : TenantContext → Session → Assessment → Bool
has_submitter ctx db a =
    any_row (λ m. is_submitter ctx a m && any_row (λ u. u.id == m.user_id) db.users) db.memberships

any_row-and_const :
    {A : Type 0} (q : A → Bool) (c : Bool) (rows : List A)
    → any_row (λ r. q r && c) rows ≡ (any_row q rows && c)
any_row-and_const q c [] = refl
any_row-and_const q c (r ∷ rows) = ground (arith, any_row-and_const q c rows)

any_row-insert_by :
    {A : Type 0} (p : A → Bool) (column : A → ℕ) (a : A) (rows : List A)
    → any_row p (insert_by column a rows) ≡ (p a || any_row p rows)
any_row-insert_by p column a [] = refl
any_row-insert_by p column a (b ∷ rows) = elim (Bool-cases (leb (column a) (column b))) [
  | inl first ↦ rw first refl
  | inr later ↦ rw later (ground (arith, any_row-insert_by p column a rows))
]

any_row-order_by :
    {A : Type 0} (p : A → Bool) (column : A → ℕ) (rows : List A)
    → any_row p (order_by column rows) ≡ any_row p rows
any_row-order_by p column [] = refl
any_row-order_by p column (a ∷ rows) =
    any_row-insert_by p column a (order_by column rows)
    ∙ ap (λ (b : Bool). p a || b) (any_row-order_by p column rows)

any_row-halves :
    {A : Type 0} (p q : A → Bool) (rows : List A)
    → (any_row p (where_rows q rows) || any_row p (where_rows (λ r. not (q r)) rows))
      ≡ any_row p rows
any_row-halves p q [] = refl
any_row-halves p q (r ∷ rows) = ground (arith, any_row-halves p q rows)

any_row-by_submission :
    (p : ReviewQueueEntry → Bool) (entries : List ReviewQueueEntry)
    → any_row p (by_submission entries) ≡ any_row p entries
any_row-by_submission p entries =
    let dated = where_rows (λ e. is_some e.submitted_at) entries in
    let undated = where_rows (λ e. not (is_some e.submitted_at)) entries in
    any_row-append p (order_by (λ e. instant_of e.submitted_at) dated) undated
    ∙ ap (λ (b : Bool). b || any_row p undated)
        (any_row-order_by p (λ e. instant_of e.submitted_at) dated)
    ∙ any_row-halves p (λ e. is_some e.submitted_at) entries

and_assoc : (a b c : Bool) → (a && (b && c)) ≡ ((a && b) && c)
and_assoc a b c = ground arith

any_row-entries_of :
    (ctx : TenantContext) (db : Session) (a : Assessment) (id : ℕ)
    → any_row (λ e. e.assessment_id == id) (entries_of ctx db a)
      ≡ (has_submitter ctx db a && (a.id == id))
any_row-entries_of ctx db a id =
    let users_of : Membership → List User = λ m. where_rows (λ u. u.id == m.user_id) db.users in
    let named : ReviewQueueEntry → Bool = λ e. e.assessment_id == id in
    any_row-join_rows named (λ m. map (queue_entry a) (users_of m))
      (where_rows (is_submitter ctx a) db.memberships)
    ∙ any_row-where_rows (λ m. any_row named (map (queue_entry a) (users_of m)))
        (is_submitter ctx a) db.memberships
    ∙ any_row-congr _ _ db.memberships (λ m.
      ap (λ (b : Bool). is_submitter ctx a m && b)
        (any_row-map named (queue_entry a) (users_of m)
          ∙ any_row-where_rows (λ (u : User). a.id == id) (λ u. u.id == m.user_id) db.users
          ∙ any_row-and_const (λ u. u.id == m.user_id) (a.id == id) db.users)
      ∙ and_assoc (is_submitter ctx a m) (any_row (λ u. u.id == m.user_id) db.users) (a.id == id))
    ∙ any_row-and_const (λ m. is_submitter ctx a m && any_row (λ u. u.id == m.user_id) db.users)
        (a.id == id) db.memberships

any_row-queue_entries :
    (ctx : TenantContext) (db : Session) (id : ℕ) (a : Assessment)
    → any_row (λ e. e.assessment_id == id) (queue_entries ctx db a)
      ≡ (is_queued ctx a && has_submitter ctx db a && (a.id == id))
any_row-queue_entries ctx db id a = elim (Bool-cases (is_queued ctx a)) [
  | inl queued ↦ rw queued (any_row-entries_of ctx db a id)
  | inr other ↦ rw other refl
]

-- The sort drops nothing that the query selects.
pub list_review_queue-is_queued :
    (ctx : TenantContext) (db : Session) (id : ℕ)
    → any_row (λ e. e.assessment_id == id) (list_review_queue ctx db)
      ≡ any_row (λ a. is_queued ctx a && has_submitter ctx db a && (a.id == id)) db.assessments
unfolding list_review_queue
list_review_queue-is_queued ctx db id =
    any_row-by_submission (λ e. e.assessment_id == id)
      (join_rows (queue_entries ctx db) db.assessments)
    ∙ any_row-join_rows (λ e. e.assessment_id == id) (queue_entries ctx db) db.assessments
    ∙ any_row-congr _ _ db.assessments (any_row-queue_entries ctx db id)
