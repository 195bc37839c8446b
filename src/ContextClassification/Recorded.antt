-- ===== src/ContextClassification/Recorded.antt =====
-- What `compute_and_record_classification` leaves (app/services/context_classification.py).
use aigov.ClassificationService.Current.{only_new}
use aigov.ClassificationService.Snapshot.{is_current_of}
use aigov.ContextClassification.Blob.{answers_blob_of}
use aigov.ContextClassification.Kept.{IsRatedAs, advance_use_case-IsRatedAs, tiers_of}
use aigov.ContextClassification.Recording.{
  Override, Submission, compute_and_record_classification, is_unresolved, override_of,
  pending_snapshot, record_outcome, write_pending,
}
use aigov.ContextClassification.Resolver.{ContextOutcome, resolve_context_classification}
use aigov.ContextClassification.Tree.{is_storable, load_tree}
use aigov.Lifecycle.Advance.{advance_use_case}
use aigov.Model.Enums.Lifecycle.{ClassificationStatus, EuAiActTier, eu_ai_act_tier_eq}
use aigov.Model.Rows.Assessment.{Classification}
use aigov.Model.Rows.Domain.{UseCase}
use aigov.Model.Rows.Tree.{DecisionTree}
use aigov.Model.Session.{Session}
use aigov.Prelude.{
  After, After-returned, After-step, Bool-cases, Option, String, [], ap, arith, attribute_error,
  beq_refl, false, inl, inr, nat_eq, none, ok, ok_eq, or_error, or_error-ok, refl, some, sym, true,
  where_rows, ℕ, ◌==◌, ◌∙◌, ◌∷◌, ◌≡◌, ◌⊎◌,
}
use mathlib.Core.Path.{subst}

-- Where the tier of a snapshot comes from: the outcome, or the override.
abbrev pub TierSource : Option EuAiActTier → ContextOutcome → Classification → Type 0
TierSource chosen out row =
    ((row.overridden ≡ false) × (out.tier ≡ some row.tier))
    ⊎ ((row.overridden ≡ true) × (chosen ≡ some row.tier) × (row.proposed_tier ≡ out.tier))

-- The snapshot waits for its review, and the tiers of the use cases are not touched.
pub record Pending (u : UseCase) (chosen : Option EuAiActTier) (out : ContextOutcome) (db : Session)
    (row : Classification) (s : Session) : Type 0 where
  pub pending : row.status ≡ ClassificationStatus.pending_review
  pub storable : is_storable row.tier ≡ true
  pub source : TierSource chosen out row
  pub only : where_rows (is_current_of u) s.classifications ≡ row ∷ []
  pub unstamped : tiers_of s.use_cases ≡ tiers_of db.use_cases

abbrev pub Stores :
    UseCase
    → Option EuAiActTier
    → Session
    → ContextOutcome × Option Classification
    → Session
    → Type 0
Stores u chosen db (out, none) s = (is_unresolved out.kind ≡ true) × (s ≡ db)
Stores u chosen db (out, some row) s =
    (is_unresolved out.kind ≡ false) × Pending u chosen out db row s

abbrev TierFrom : Option EuAiActTier → ContextOutcome → Override → Type 0
TierFrom chosen out o =
    ((o.overridden ≡ false) × (out.tier ≡ some o.stored_tier))
    ⊎ ((o.overridden ≡ true) × (chosen ≡ some o.stored_tier) × (o.proposed_tier ≡ out.tier))

override_of-TierFrom :
    (out : ContextOutcome) (tier : EuAiActTier) (chosen : Option EuAiActTier) (o : Override)
    → out.tier ≡ some tier
    → override_of tier chosen ≡ ok o
    → TierFrom chosen out o
unfolding override_of
override_of-TierFrom out tier none o e h = subst (TierFrom none out) (ok_eq h) (inl (refl, e))
override_of-TierFrom out tier (some c) o e h = elim (Bool-cases (c == tier)) [
  | inl same ↦ subst (TierFrom (some c) out) (ok_eq (rw same at h)) (inl (refl, e))
  | inr other ↦ elim (Bool-cases (is_storable c)) [
    | inl real ↦
        subst (TierFrom (some c) out) (ok_eq (rw (other, real) at h)) (inr (refl, refl, sym e))
    | inr unreal ↦ let never = rw (other, unreal) at h in cc
  ]
]

-- The session after the writes and the advance.
advanced-IsRatedAs :
    (u : UseCase) (row : Classification) (out : ContextOutcome) (o : Override) (version : String)
    (justification : Option String) (actor : ℕ) (db : Session)
    → let written = write_pending u row out o version justification actor db in
      IsRatedAs written.classifications (tiers_of db.use_cases) (advance_use_case u actor written).1
unfolding write_pending
advanced-IsRatedAs u row out o version justification actor db =
    let written = write_pending u row out o version justification actor db in
    (advance_use_case-IsRatedAs written.classifications (tiers_of db.use_cases) u actor).at written
      (record { classifications = refl; rated = refl })

pub write_pending-only :
    (u : UseCase) (row : Classification) (out : ContextOutcome) (o : Override) (version : String)
    (justification : Option String) (actor : ℕ) (db : Session)
    → is_current_of u row ≡ true
    → where_rows
        (is_current_of u)
        (write_pending u row out o version justification actor db).classifications
      ≡ row ∷ []
unfolding write_pending
write_pending-only u row out o version justification actor db mine =
    only_new (is_current_of u) (λ r. record r { is_current = false }) row (λ r. ground arith) mine
      db.classifications

-- The snapshot that is written, where it may be.
written-Pending :
    (u : UseCase) (asked : Submission) (actor : ℕ) (out : ContextOutcome) (o : Override)
    (tree : DecisionTree) (db : Session)
    → TierFrom asked.override_tier out o
    → is_storable o.stored_tier ≡ true
    → let row =
        pending_snapshot u out o asked.justification
          (answers_blob_of asked.tree_version tree asked.answers out o.stored_tier)
          db in
      Pending u asked.override_tier out db row
        (advance_use_case u actor
          (write_pending u row out o asked.tree_version asked.justification actor db)).1
written-Pending u asked actor out o tree db from real =
    let row =
      pending_snapshot u out o asked.justification
        (answers_blob_of asked.tree_version tree asked.answers out o.stored_tier) db in
    let after = advanced-IsRatedAs u row out o asked.tree_version asked.justification actor db in
    record {
      pending = refl;
      storable = real;
      source = from;
      only =
          ap (where_rows (is_current_of u)) after.classifications
          ∙ write_pending-only u row out o asked.tree_version asked.justification actor db
              (rw (beq_refl u.id) refl);
      unstamped = after.rated;
    }

record_outcome-Stores :
    (u : UseCase) (asked : Submission) (actor : ℕ) (out : ContextOutcome) (tier : EuAiActTier)
    (db : Session)
    → out.tier ≡ some tier
    → is_unresolved out.kind ≡ false
    → After (Stores u asked.override_tier db) (record_outcome u asked actor out tier db)
unfolding record_outcome
record_outcome-Stores u asked actor out tier db e open_kind =
    let Q = Stores u asked.override_tier db in
    After-step Q _ (override_of tier asked.override_tier, db)
      λ o chosen.
        let from = override_of-TierFrom out tier asked.override_tier o e chosen in
        elim (Bool-cases (is_storable o.stored_tier)) [
          | inr unreal ↦ rw unreal tt
          | inl real ↦ rw real (
              After-step Q _ (load_tree asked.tree_version db, db)
                λ tree loaded.
                  After-step Q _ (advance_use_case u actor _) λ v advanced.
                    (open_kind, written-Pending u asked actor out o tree db from real))
        ]

compute-Stores :
    (u : UseCase) (asked : Submission) (actor : ℕ) (db : Session)
    → After (Stores u asked.override_tier db) (compute_and_record_classification u asked actor db)
unfolding compute_and_record_classification
compute-Stores u asked actor db =
    let Q = Stores u asked.override_tier db in
    After-step Q _ (resolve_context_classification asked.answers asked.tree_version db, db)
      λ out resolved. elim (Bool-cases (is_unresolved out.kind)) [
        | inl unresolved_kind ↦ rw unresolved_kind (unresolved_kind, refl)
        | inr open_kind ↦ rw open_kind (
            After-step Q _ (or_error attribute_error out.tier, db)
              λ tier has.
                record_outcome-Stores u asked actor out tier db (or_error-ok _ _ has) open_kind)
      ]

-- A computation that returned no snapshot was unresolved, and left the session as it was. One that
-- returned a snapshot was not; the snapshot is the only current one of the use case, waits for its
-- review, and has a tier of the ladder, which is the outcome's or the one asked for in its place;
-- and no use case has another tier than before, whatever the advance that follows does.
pub compute_and_record_classification-Stores :
    (u : UseCase) (asked : Submission) (actor : ℕ) (db : Session)
    (got : ContextOutcome × Option Classification)
    → (compute_and_record_classification u asked actor db).0 ≡ ok got
    → Stores u asked.override_tier db got (compute_and_record_classification u asked actor db).1
compute_and_record_classification-Stores u asked actor db got h =
    After-returned (Stores u asked.override_tier db)
      (compute_and_record_classification u asked actor db) (compute-Stores u asked actor db) h
