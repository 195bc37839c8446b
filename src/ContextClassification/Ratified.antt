-- ===== src/ContextClassification/Ratified.antt =====
-- What `sign_off_classification` finds and leaves (app/services/context_classification.py).
use aigov.ContextClassification.Kept.{IsRatedAs, advance_use_case-IsRatedAs, tiers_of}
use aigov.ContextClassification.SignOff.{
  no_current_snapshot, sign_off_classification, write_sign_off,
}
use aigov.Gates.Readiness.{current_snapshot}
use aigov.Lifecycle.Advance.{advance_use_case}
use aigov.Model.Enums.Lifecycle.{ClassificationStatus, EuAiActTier, classification_status_eq}
use aigov.Model.Rows.Assessment.{Classification}
use aigov.Model.Rows.Domain.{UseCase}
use aigov.Model.Session.{Session}
use aigov.Prelude.{
  After, After-returned, After-step, Bool-cases, inl, inr, nat_eq, ok, or_error, or_error-ok, refl,
  same_key, some, update_rows, ℕ, ◌==◌, ◌≡◌,
}

abbrev approve : Classification → Classification
approve r = record r { status = ClassificationStatus.approved }

abbrev stamp : EuAiActTier → UseCase → UseCase
stamp tier u = record u { eu_tier = tier }

pub record Ratified (u : UseCase) (db : Session) (row : Classification) (s : Session) : Type 0 where
  pub snapshot : Classification
  pub found : current_snapshot u db ≡ some snapshot
  pub pending : snapshot.status ≡ ClassificationStatus.pending_review
  pub returned : row ≡ approve snapshot
  pub approved :
      s.classifications ≡ update_rows (λ r. r.id == snapshot.id) approve db.classifications
  pub stamped_tiers :
      tiers_of s.use_cases
      ≡ tiers_of (update_rows (λ v. v.id == u.id) (stamp snapshot.tier) db.use_cases)

signed-IsRatedAs :
    (u : UseCase) (snapshot : Classification) (reviewer : ℕ) (db : Session)
    → IsRatedAs
        (update_rows (λ r. r.id == snapshot.id) approve db.classifications)
        (tiers_of (update_rows (λ v. v.id == u.id) (stamp snapshot.tier) db.use_cases))
        (advance_use_case
          (stamp snapshot.tier u)
          reviewer
          (write_sign_off u snapshot reviewer db)).1
unfolding write_sign_off
signed-IsRatedAs u snapshot reviewer db =
    (advance_use_case-IsRatedAs (update_rows (λ r. r.id == snapshot.id) approve db.classifications)
        (tiers_of (update_rows (λ v. v.id == u.id) (stamp snapshot.tier) db.use_cases))
        (stamp snapshot.tier u) reviewer).at
      (write_sign_off u snapshot reviewer db) (record { classifications = refl; rated = refl })

sign_off-Ratified :
    (u : UseCase) (reviewer : ℕ) (db : Session)
    → After (Ratified u db) (sign_off_classification u reviewer db)
unfolding sign_off_classification
sign_off-Ratified u reviewer db =
    let Q = Ratified u db in
    After-step Q _ (or_error no_current_snapshot (current_snapshot u db), db)
      λ snapshot loaded. elim (Bool-cases (snapshot.status == ClassificationStatus.approved)) [
        | inl done ↦ rw done tt
        | inr open_status ↦
            elim (Bool-cases (snapshot.status == ClassificationStatus.pending_review)) [
              | inr other ↦ rw (open_status, other) tt
              | inl waiting ↦
                  let after = signed-IsRatedAs u snapshot reviewer db in
                  rw (open_status, waiting)
                    (After-step Q _
                      (advance_use_case (stamp snapshot.tier u) reviewer
                        (write_sign_off u snapshot reviewer db))
                      λ v advanced. record {
                        snapshot = snapshot;
                        found = or_error-ok _ _ loaded;
                        pending = same_key waiting;
                        returned = refl;
                        approved = after.classifications;
                        stamped_tiers = after.rated;
                      })
            ]
      ]

-- A sign-off that returned has found the current snapshot of the use case, which waited for its
-- review; it has approved the rows of that snapshot and no others, and has given its tier to the
-- use case and to no other, whatever the advance that follows does.
pub sign_off_classification-Ratified :
    (u : UseCase) (reviewer : ℕ) (db : Session) (row : Classification)
    → (sign_off_classification u reviewer db).0 ≡ ok row
    → Ratified u db row (sign_off_classification u reviewer db).1
sign_off_classification-Ratified u reviewer db row h =
    After-returned (Ratified u db) (sign_off_classification u reviewer db)
      (sign_off-Ratified u reviewer db) h
