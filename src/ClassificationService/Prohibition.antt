-- ===== src/ClassificationService/Prohibition.antt =====
-- What a prohibited proposal means for the lifecycle (app/services/classification.py,
-- app/services/lifecycle_service.py).
use aigov.ClassificationService.{ClassificationProposal}
use aigov.ClassificationService.Current.{find?-sole, write_snapshot-only}
use aigov.ClassificationService.Snapshot.{
  SnapshotOptions, is_current_of, new_snapshot, snapshot_classification, stamped, write_snapshot,
}
use aigov.Gates.Readiness.{classification_readiness, current_snapshot}
use aigov.Lifecycle.Advance.{must_halt}
use aigov.Lifecycle.Arrival.{Succeeds, advance_use_case-halts}
use aigov.Lifecycle.Legality.{is_terminal}
use aigov.Lifecycle.Resting.{IsFresh}
use aigov.Lifecycle.Transition.{row_matches}
use aigov.Model.Enums.Lifecycle.{EuAiActTier, LifecycleState}
use aigov.Model.Rows.Assessment.{Classification}
use aigov.Model.Rows.Domain.{UseCase}
use aigov.Model.Session.{Session}
use aigov.Prelude.{
  Bool-cases, List, [], and_then, any_row, ap, arith, false, find?, inl, inr, nat_eq, pure, refl,
  some, sym, true, update_rows, ℕ, ◌&&◌, ◌==◌, ◌∙◌, ◌∷◌, ◌≡◌,
}
use mathlib.Core.Bool.{or-true}
use mathlib.Core.Path.{subst}

-- The use case has been halted, on its own row.
pub record Halted (u : UseCase) (expected row : Classification) (db' : Session) : Type 0 where
  pub returned : row ≡ expected
  pub halted : UseCase
  pub same_id : halted.id ≡ u.id
  pub state : halted.state ≡ LifecycleState.halted_prohibited
  pub stored : IsFresh halted db'

stamped_same :
    (proposal : ClassificationProposal) (options : SnapshotOptions) (u : UseCase)
    → ((stamped proposal options u).id ≡ u.id)
      × ((stamped proposal options u).tenant_id ≡ u.tenant_id)
      × ((stamped proposal options u).state ≡ u.state)
stamped_same proposal options u = ground arith

stamped-row_matches :
    (proposal : ClassificationProposal) (options : SnapshotOptions) (u r : UseCase)
    → row_matches (stamped proposal options u) (stamped proposal options r) ≡ row_matches u r
stamped-row_matches proposal options u r = ground arith

stamped-IsFresh :
    (proposal : ClassificationProposal) (options : SnapshotOptions) (u : UseCase)
    (rows : List UseCase)
    → any_row (row_matches u) rows ≡ true
    → any_row
        (row_matches (stamped proposal options u))
        (update_rows (λ r. r.id == u.id) (stamped proposal options) rows)
      ≡ true
stamped-IsFresh proposal options u [] h = h
stamped-IsFresh proposal options u (r ∷ rows) h = elim (Bool-cases (row_matches u r)) [
  | inl hit ↦
      let mine : (r.id == u.id) ≡ true = ground arith in
      rw (mine, stamped-row_matches proposal options u r, hit) refl
  | inr miss ↦
      let rest = stamped-IsFresh proposal options u rows (rw miss at h) in rw rest (or-true _)
]

current_after :
    (u : UseCase) (proposal : ClassificationProposal) (options : SnapshotOptions) (actor : ℕ)
    (db : Session)
    → current_snapshot (stamped proposal options u) (write_snapshot u proposal options actor db)
      ≡ some (new_snapshot u proposal options db)
current_after u proposal options actor db =
    subst
      (λ i.
        find? (λ (row : Classification). row.use_case_id == i && row.is_current)
          (write_snapshot u proposal options actor db).classifications
        ≡ some (new_snapshot u proposal options db))
      (sym ((stamped_same proposal options u).0))
      (find?-sole (is_current_of u) (write_snapshot u proposal options actor db).classifications
        (write_snapshot-only u proposal options actor db))

must_halt_after :
    (u : UseCase) (proposal : ClassificationProposal) (options : SnapshotOptions) (actor : ℕ)
    (db : Session)
    → proposal.tier ≡ EuAiActTier.prohibited
    → must_halt (stamped proposal options u) (write_snapshot u proposal options actor db) ≡ true
unfolding classification_readiness
must_halt_after u proposal options actor db e =
    rw (current_after u proposal options actor db, e) refl

IsFresh-after :
    (u : UseCase) (proposal : ClassificationProposal) (options : SnapshotOptions) (actor : ℕ)
    (db : Session)
    → IsFresh u db
    → IsFresh (stamped proposal options u) (write_snapshot u proposal options actor db)
unfolding write_snapshot
IsFresh-after u proposal options actor db = stamped-IsFresh proposal options u db.use_cases

-- A prohibited proposal for a use case that has not moved since it was read, and is not halted yet,
-- halts it in the call that takes the snapshot, stamped or not, overridden or not; the call does
-- not fail.
pub snapshot_classification-halts :
    (u : UseCase) (proposal : ClassificationProposal) (options : SnapshotOptions) (actor : ℕ)
    (db : Session)
    → IsFresh u db
    → is_terminal u.state ≡ false
    → proposal.tier ≡ EuAiActTier.prohibited
    → Succeeds
        (snapshot_classification u proposal options actor)
        db
        (Halted u (new_snapshot u proposal options db))
unfolding snapshot_classification
snapshot_classification-halts u proposal options actor db fresh live e =
    let (same_id, same_tenant, same_state) = stamped_same proposal options u in
    let halted =
      advance_use_case-halts (stamped proposal options u) actor
        (write_snapshot u proposal options actor db)
        (IsFresh-after u proposal options actor db fresh)
        (must_halt_after u proposal options actor db e) (rw same_state live) in
    record {
      result = new_snapshot u proposal options db;
      after = halted.after;
      returns = ap (and_then (λ _. pure (new_snapshot u proposal options db))) halted.returns;
      holds_after = record {
        returned = refl;
        halted = halted.result;
        same_id = halted.holds_after.same.facts.id ∙ same_id;
        state = halted.holds_after.state;
        stored = halted.holds_after.fresh;
      };
    }
