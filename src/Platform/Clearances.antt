-- ===== src/Platform/Clearances.antt =====
-- The clearances and fan-outs of app/services/lifecycle_service.py, and the snapshots of
-- app/services/classification.py, on a lawful session.
use aigov.Approvals.{
  ApprovalDecision, commit_or_rollback, fan_out, set_product_approval, set_vendor_approval, worker,
}
use aigov.ClassificationService.{ClassificationProposal}
use aigov.ClassificationService.Snapshot.{
  SnapshotOptions, new_snapshot, snapshot_classification, stamped, write_snapshot,
}
use aigov.Lifecycle.Advance.{advance_use_case}
use aigov.Lifecycle.Kept.{advance_use_case-Keeps, re_evaluate-Keeps}
use aigov.Lifecycle.Sound.{IsKeyed-update_rows}
use aigov.Lifecycle.Trail.{HasHint, IsTraced}
use aigov.Model.Rows.Domain.{UseCase}
use aigov.Model.Session.{Session, get_use_case}
use aigov.Platform.Lawful.{IsLawful, IsLawful-step, is_granted}
use aigov.Platform.Requests.{only_other_tables}
use aigov.Prelude.{
  All-both, All-map, All-update_rows, Bool-cases, Keeps, Keeps-bind, Keeps-pure, List, Option,
  Result, [], arith, err, inl, inr, keeps_rules, nat_eq, none, ok, pure, refl, some, true, ℕ, ◌==◌,
  ◌∷◌, ◌≡◌,
}

pub set_vendor_approval-Keeps :
    (tenant_id vendor_id : ℕ) (d : ApprovalDecision)
    → Keeps IsLawful (set_vendor_approval tenant_id vendor_id d)
unfolding set_vendor_approval
set_vendor_approval-Keeps tenant_id vendor_id d =
    only_other_tables (set_vendor_approval tenant_id vendor_id d) (λ db. refl) (λ db. refl)
      (λ db. refl)

pub set_product_approval-Keeps :
    (tenant_id product_id : ℕ) (d : ApprovalDecision)
    → Keeps IsLawful (set_product_approval tenant_id product_id d)
unfolding set_product_approval
set_product_approval-Keeps tenant_id product_id d =
    only_other_tables (set_product_approval tenant_id product_id d) (λ db. refl) (λ db. refl)
      (λ db. refl)

worker-Keeps : (o : Option UseCase) (actor : ℕ) → Keeps IsLawful (worker o actor)
worker-Keeps none actor = search keeps_rules
worker-Keeps (some u) actor =
    let moves = re_evaluate-Keeps IsLawful IsLawful-step u actor in search (keeps_rules, moves)

committed :
    (before : Session) (x : Result (Unit {0}) × Session)
    (rest : Session → Result (Unit {0}) × Session)
    → IsLawful before
    → IsLawful x.1
    → ((db : Session) → IsLawful db → IsLawful (rest db).1)
    → IsLawful (commit_or_rollback before x rest).1
committed before (ok a, after) rest h k next = next after k
committed before (err e, after) rest h k next = h

pub fan_out-Keeps : (ids : List ℕ) (actor : ℕ) → Keeps IsLawful (fan_out ids actor)
unfolding fan_out
fan_out-Keeps [] actor = record { at = λ db h. h }
fan_out-Keeps (id ∷ ids) actor = record {
  at = λ db h.
      committed db (worker (get_use_case db id) actor db) (fan_out ids actor) h
        ((worker-Keeps (get_use_case db id) actor).at db h) ((fan_out-Keeps ids actor).at);
}

-- The laws, for one row.
abbrev LawsOf : Session → UseCase → Type 0
LawsOf db r = IsTraced db.transitions r × (HasHint r × (is_granted db.authorisations r ≡ true))

-- A tier that is stamped on a row is none of the columns that the laws are on.
stamped-LawsOf :
    (db : Session) (proposal : ClassificationProposal) (options : SnapshotOptions) (r : UseCase)
    → LawsOf db r
    → LawsOf db (stamped proposal options r)
stamped-LawsOf db proposal options r h = elim (Bool-cases options.stamp_eu_tier) [
  | inl on ↦ rw on h
  | inr off ↦ rw off h
]

stamped-id :
    (proposal : ClassificationProposal) (options : SnapshotOptions) (r : UseCase)
    → (stamped proposal options r).id ≡ r.id
stamped-id proposal options r = ground arith

write_snapshot-IsLawful :
    (u : UseCase) (proposal : ClassificationProposal) (options : SnapshotOptions) (actor : ℕ)
    (db : Session)
    → IsLawful db
    → IsLawful (write_snapshot u proposal options actor db)
unfolding write_snapshot
write_snapshot-IsLawful u proposal options actor db h =
    let old =
      All-both (IsTraced db.transitions) (λ r. HasHint r × (is_granted db.authorisations r ≡ true))
        db.use_cases h.sound.traced
        (All-both HasHint (λ r. is_granted db.authorisations r ≡ true) db.use_cases h.sound.hinted
          h.granted) in
    let new =
      All-update_rows (LawsOf db) (LawsOf db) (λ r. r.id == u.id) (stamped proposal options)
        (λ r _ k. stamped-LawsOf db proposal options r k) (λ r _ k. k) db.use_cases old in
    record {
      sound = record {
        keyed =
            IsKeyed-update_rows (λ r. r.id == u.id) (stamped proposal options)
              (stamped-id proposal options) db.use_cases h.sound.keyed;
        traced = All-map (LawsOf db) (IsTraced db.transitions) (λ r k. k.0) _ new;
        hinted = All-map (LawsOf db) HasHint (λ r k. k.1.0) _ new;
      };
      granted =
          All-map (LawsOf db) (λ r. is_granted db.authorisations r ≡ true) (λ r k. k.1.1) _ new;
    }

pub snapshot_classification-Keeps :
    (u : UseCase) (proposal : ClassificationProposal) (options : SnapshotOptions) (actor : ℕ)
    → Keeps IsLawful (snapshot_classification u proposal options actor)
unfolding snapshot_classification
snapshot_classification-Keeps u proposal options actor = record {
  at = λ db h.
      (Keeps-bind (advance_use_case (stamped proposal options u) actor)
          (λ _. pure (new_snapshot u proposal options db))
          (advance_use_case-Keeps IsLawful IsLawful-step (stamped proposal options u) actor)
          (λ _. Keeps-pure (new_snapshot u proposal options db))).at
        (write_snapshot u proposal options actor db)
        (write_snapshot-IsLawful u proposal options actor db h);
}
