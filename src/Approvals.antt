-- ===== src/Approvals.antt =====
-- The clearances of vendors and products, and the re-evaluations that follow them
-- (app/services/lifecycle_service.py).
pub mod FanOut
pub mod Cleared
use aigov.Gates.Clearance.{Kind, find_approval}
use aigov.Lifecycle.ReEvaluate.{re_evaluate}
use aigov.Model.Enums.Lifecycle.{ApprovalStatus, approval_status_value}
use aigov.Model.Rows.Domain.{Approval, System, UseCase}
use aigov.Model.Rows.Lifecycle.{AuditEvent, Detail}
use aigov.Model.Session.{Session, get_use_case}
use aigov.Prelude.{
  Bool, Exec, List, Option, Result, String, [], err, holds, if◌then◌else◌, is_some, join_rows, map,
  nat_eq, none, ok, pure, some, update_rows, where_rows, ℕ, ◌&&◌, ◌++◌, ◌+◌, ◌==◌, ◌>>◌, ◌∷◌,
}

-- The keyword arguments of a decision on a clearance.
pub record ApprovalDecision : Type 0 where
  pub approval_status : ApprovalStatus
  pub valid_until : Option ℕ
  pub remark : Option String
  pub actor_user_id : ℕ

-- The assignments to the attributes of a clearance.
abbrev pub decided : ApprovalDecision → ℕ → Approval → Approval
decided d now row = record row {
  status = d.approval_status;
  valid_until = d.valid_until;
  note = d.remark;
  decided_by_user_id = some d.actor_user_id;
  decided_at = some now;
}

-- A clearance that is not in its table yet; `status` has its column default until it is assigned.
abbrev pub new_approval : ℕ → ℕ → ℕ → Approval
new_approval id tenant_id catalogue_id = record {
  id = id;
  tenant_id = tenant_id;
  catalogue_id = catalogue_id;
  status = ApprovalStatus.not_started;
  valid_until = none;
  decided_by_user_id = none;
  decided_at = none;
  note = none;
}

-- The flush: the changed row by its primary key, or the new one.
abbrev pub flush_approval : Option Approval → Approval → List Approval → List Approval
flush_approval none row rows = rows ++ row ∷ []
flush_approval (some old) row rows = update_rows (λ r. r.id == old.id) (λ _. row) rows

-- The row as it is after the assignments.
abbrev pub approval_after : Option Approval → ApprovalDecision → ℕ → ℕ → Session → Approval
approval_after none d tenant_id catalogue_id db =
    decided d db.now (new_approval (db.uuids db.drawn) tenant_id catalogue_id)
approval_after (some old) d tenant_id catalogue_id db = decided d db.now old

-- The values that a decision draws from the supply: the key of a new clearance, and the audit's.
abbrev pub keys_before_audit : Option Approval → ℕ
keys_before_audit none = 1
keys_before_audit (some old) = 0

-- An instant in a `detail` stands for its ISO text.
abbrev pub instant_or_null : Option ℕ → Detail
instant_or_null none = Detail.null
instant_or_null (some t) = Detail.num t

-- "updated" where there was a clearance, and "set" where there was none.
abbrev pub approval_action : Kind → Bool → String
approval_action Kind.vendor_kind is_update =
    if is_update then "vendor_approval.updated" else "vendor_approval.set"
approval_action Kind.product_kind is_update =
    if is_update then "product_approval.updated" else "product_approval.set"

abbrev pub approval_entity : Kind → String
approval_entity Kind.vendor_kind = "vendor_approval"
approval_entity Kind.product_kind = "product_approval"

abbrev pub approval_event :
    Kind → Option Approval → Approval → ApprovalDecision → ℕ → Session → AuditEvent
approval_event kind old row d tenant_id db = record {
  id = db.uuids (db.drawn + keys_before_audit old);
  tenant_id = tenant_id;
  actor_user_id = d.actor_user_id;
  action = approval_action kind (is_some old);
  entity_type = approval_entity kind;
  entity_id = row.id;
  detail =
      ("status", Detail.text (approval_status_value d.approval_status))
      ∷ ("valid_until", instant_or_null d.valid_until)
      ∷ [];
}

-- The session after a decision, with the table that it is about.
abbrev pub decide_in : Kind → Option Approval → ApprovalDecision → ℕ → ℕ → Session → Session
decide_in Kind.vendor_kind old d tenant_id catalogue_id db =
    let row = approval_after old d tenant_id catalogue_id db in
    record db {
      vendor_approvals = flush_approval old row db.vendor_approvals;
      audit_events = db.audit_events ++ approval_event Kind.vendor_kind old row d tenant_id db ∷ [];
      drawn = db.drawn + keys_before_audit old + 1;
    }
decide_in Kind.product_kind old d tenant_id catalogue_id db =
    let row = approval_after old d tenant_id catalogue_id db in
    record db {
      product_approvals = flush_approval old row db.product_approvals;
      audit_events =
          db.audit_events ++ approval_event Kind.product_kind old row d tenant_id db ∷ [];
      drawn = db.drawn + keys_before_audit old + 1;
    }

unfoldable pub set_vendor_approval : ℕ → ℕ → ApprovalDecision → Exec Session Approval
set_vendor_approval tenant_id catalogue_vendor_id d db =
    let old = find_approval tenant_id catalogue_vendor_id db.vendor_approvals in
    (
      ok (approval_after old d tenant_id catalogue_vendor_id db),
      decide_in Kind.vendor_kind old d tenant_id catalogue_vendor_id db,
    )

unfoldable pub set_product_approval : ℕ → ℕ → ApprovalDecision → Exec Session Approval
set_product_approval tenant_id catalogue_product_id d db =
    let old = find_approval tenant_id catalogue_product_id db.product_approvals in
    (
      ok (approval_after old d tenant_id catalogue_product_id db),
      decide_in Kind.product_kind old d tenant_id catalogue_product_id db,
    )

-- The end of a worker's transaction: a commit, or the rollback to where it began and the raise.
abbrev pub commit_or_rollback :
    Session
    → Result (Unit {0}) × Session
    → (Session → Result (Unit {0}) × Session)
    → Result (Unit {0}) × Session
commit_or_rollback before (ok _, after) rest = rest after
commit_or_rollback before (err e, after) rest = (err e, before)

-- One use case of the fan-out, in its own transaction.
abbrev pub worker : Option UseCase → ℕ → Exec Session (Unit {0})
worker none actor = pure tt
worker (some u) actor = do re_evaluate u actor; pure tt

unfoldable pub fan_out : List ℕ → ℕ → Exec Session (Unit {0})
fan_out [] actor db = (ok tt, db)
fan_out (id ∷ ids) actor db =
    commit_or_rollback db (worker (get_use_case db id) actor db) (fan_out ids actor)

-- The ids of the use cases whose system satisfies a condition.
abbrev pub use_cases_of_systems : (System → Bool) → Session → List ℕ
use_cases_of_systems linked db =
    join_rows (λ u. map (λ _. u.id) (where_rows (λ s. s.id == u.system_id && linked s) db.systems))
      db.use_cases

unfoldable pub fan_out_vendor_approval : ℕ → ℕ → ℕ → Exec Session (Unit {0})
unfolding fan_out
fan_out_vendor_approval tenant_id catalogue_vendor_id actor db =
    fan_out
      (use_cases_of_systems
        (λ s. s.tenant_id == tenant_id && holds s.catalogue_vendor_id catalogue_vendor_id) db)
      actor db

unfoldable pub fan_out_product_approval : ℕ → ℕ → ℕ → Exec Session (Unit {0})
unfolding fan_out
fan_out_product_approval tenant_id catalogue_product_id actor db =
    fan_out
      (use_cases_of_systems
        (λ s. s.tenant_id == tenant_id && holds s.catalogue_product_id catalogue_product_id) db)
      actor db
