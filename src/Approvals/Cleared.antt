-- ===== src/Approvals/Cleared.antt =====
-- What a decision on a clearance means for the gates (app/services/lifecycle_service.py,
-- app/services/lifecycle_gates.py).
use aigov.Approvals.{
  ApprovalDecision, approval_after, decide_in, flush_approval, set_vendor_approval,
}
use aigov.Gates.Clearance.{
  Kind, approval_verdict, find_approval, has_expired, vendor_clearance, vendor_gate, vendor_link,
}
use aigov.Gates.Structure.{advances}
use aigov.Model.Enums.Lifecycle.{ApprovalStatus, approval_status_eq}
use aigov.Model.Rows.Domain.{Approval, System, UseCase}
use aigov.Model.Session.{Session, get_system}
use aigov.Prelude.{
  All-find?, Bool, Bool-cases, IsKeyedBy, List, Option, [], ap, beq_flip, false, find?, find?-holds,
  inl, inr, ltb, nat_eq, none, not, refl, some, some_eq, true, update_rows, ℕ, ◌&&◌, ◌++◌, ◌==◌,
  ◌∙◌, ◌∷◌, ◌≡◌,
}

find?-appended :
    (p : Approval → Bool) (rows : List Approval) (row : Approval)
    → find? p rows ≡ none
    → p row ≡ true
    → find? p (rows ++ row ∷ []) ≡ some row
find?-appended p [] row e h = rw h refl
find?-appended p (x ∷ rows) row e h = elim (Bool-cases (p x)) [
  | inl hit ↦ cc (rw hit at e)
  | inr miss ↦ rw miss (find?-appended p rows row (rw miss at e) h)
]

-- The first row of a query, replaced by its key, is the one that the query then finds.
find?-replaced :
    (p : Approval → Bool) (rows : List Approval) (a row : Approval)
    → IsKeyedBy (λ (r : Approval). r.id) rows
    → find? p rows ≡ some a
    → p row ≡ true
    → find? p (update_rows (λ r. r.id == a.id) (λ _. row) rows) ≡ some row
find?-replaced p [] a row k e h = cc
find?-replaced p (x ∷ rows) a row k e h = elim (Bool-cases (p x)) [
  | inl hit ↦
      let same : x ≡ a = some_eq (rw hit at e) in
      rw ((nat_eq.beq_iff x.id a.id).1 (ap (λ r. r.id) same), h) refl
  | inr miss ↦
      let later = rw miss at e in
      let other : (x.id == a.id) ≡ false =
        beq_flip a.id x.id
          (All-find? (λ (s : Approval). (s.id == x.id) ≡ false) p rows k.0 later) in
      rw (other, miss) (find?-replaced p rows a row k.1 later h)
]

-- The clearance that is found after a decision is the one that the decision has written.
flushed :
    (tenant_id catalogue_id : ℕ) (d : ApprovalDecision) (db : Session) (rows : List Approval)
    (o : Option Approval)
    → find_approval tenant_id catalogue_id rows ≡ o
    → IsKeyedBy (λ (r : Approval). r.id) rows
    → find_approval tenant_id catalogue_id
        (flush_approval o (approval_after o d tenant_id catalogue_id db) rows)
      ≡ some (approval_after o d tenant_id catalogue_id db)
flushed tenant_id catalogue_id d db rows none e k =
    find?-appended (λ r. r.tenant_id == tenant_id && r.catalogue_id == catalogue_id) rows _ e
      (rw
        (
          (nat_eq.beq_iff tenant_id tenant_id).1 refl,
          (nat_eq.beq_iff catalogue_id catalogue_id).1 refl,
        )
        refl)
flushed tenant_id catalogue_id d db rows (some a) e k =
    find?-replaced (λ r. r.tenant_id == tenant_id && r.catalogue_id == catalogue_id) rows a _ k e
      (find?-holds (λ r. r.tenant_id == tenant_id && r.catalogue_id == catalogue_id) rows a e)

abbrev pub runs_out : Option ℕ → ℕ → Bool
runs_out none now = false
runs_out (some t) now = ltb t now

-- The decision clears at an instant: it approves, and it has not run out.
abbrev pub clears : ApprovalDecision → ℕ → Bool
clears d now = d.approval_status == ApprovalStatus.approved && not (runs_out d.valid_until now)

expiry : (o : Option ℕ) (now : ℕ) → elim o [ none ↦ false | some t ↦ ltb t now ] ≡ runs_out o now
expiry none now = refl
expiry (some t) now = refl

has_expired-runs_out : (a : Approval) (now : ℕ) → has_expired a now ≡ runs_out a.valid_until now
unfolding has_expired
has_expired-runs_out a now = expiry a.valid_until now

verdict_by :
    (a : Approval) (kind : Kind) (now : ℕ)
    → advances (approval_verdict (some a) kind now)
      ≡ (a.status == ApprovalStatus.approved && not (has_expired a now))
unfolding approval_verdict
verdict_by a kind now = elim (Bool-cases (a.status == ApprovalStatus.approved)) [
  | inr other ↦ rw other refl
  | inl approved_now ↦ elim (Bool-cases (has_expired a now)) [
    | inl late ↦ rw (approved_now, late) refl
    | inr valid ↦ rw (approved_now, valid) refl
  ]
]

verdict_of :
    (tenant_id catalogue_id : ℕ) (d : ApprovalDecision) (db : Session) (o : Option Approval)
    (kind : Kind)
    → advances (approval_verdict (some (approval_after o d tenant_id catalogue_id db)) kind db.now)
      ≡ clears d db.now
verdict_of tenant_id catalogue_id d db none kind =
    verdict_by _ kind db.now
    ∙ ap (λ b. d.approval_status == ApprovalStatus.approved && not b)
        (has_expired-runs_out _ db.now)
verdict_of tenant_id catalogue_id d db (some a) kind =
    verdict_by _ kind db.now
    ∙ ap (λ b. d.approval_status == ApprovalStatus.approved && not b)
        (has_expired-runs_out _ db.now)

-- Ids of clearances being unique: after a decision on a vendor's clearance, which may have existed
-- or not, a use case of the tenant on a system of that vendor passes the vendor gate exactly when
-- the decision approves and has not run out.
pub set_vendor_approval-vendor_gate :
    (tenant_id catalogue_vendor_id : ℕ) (d : ApprovalDecision) (db : Session) (u : UseCase)
    (system : System)
    → IsKeyedBy (λ (r : Approval). r.id) db.vendor_approvals
    → get_system db u.system_id ≡ some system
    → system.catalogue_vendor_id ≡ some catalogue_vendor_id
    → u.tenant_id ≡ tenant_id
    → advances (vendor_gate u (set_vendor_approval tenant_id catalogue_vendor_id d db).1)
      ≡ clears d db.now
unfolding vendor_gate set_vendor_approval
set_vendor_approval-vendor_gate tenant_id catalogue_vendor_id d db u system keys found link own =
    let old = find_approval tenant_id catalogue_vendor_id db.vendor_approvals in
    let after = decide_in Kind.vendor_kind old d tenant_id catalogue_vendor_id db in
    ap (λ o. advances (vendor_clearance u after (vendor_link o))) found
    ∙ ap (λ o. advances (vendor_clearance u after o)) link
    ∙ ap
        (λ t. advances (
          approval_verdict (find_approval t catalogue_vendor_id after.vendor_approvals)
            Kind.vendor_kind db.now))
        own
    ∙ ap (λ o. advances (approval_verdict o Kind.vendor_kind db.now))
        (flushed tenant_id catalogue_vendor_id d db db.vendor_approvals old refl keys)
    ∙ verdict_of tenant_id catalogue_vendor_id d db old Kind.vendor_kind
