-- ===== src/ContextClassification/SignOff.antt =====
-- `sign_off_classification` of app/services/context_classification.py.
use aigov.Gates.Readiness.{current_snapshot}
use aigov.Lifecycle.Advance.{advance_use_case}
use aigov.Model.Enums.Lifecycle.{
  ClassificationStatus, classification_status_eq, classification_status_value, eu_ai_act_tier_value,
}
use aigov.Model.Rows.Assessment.{Classification}
use aigov.Model.Rows.Domain.{UseCase}
use aigov.Model.Rows.Lifecycle.{AuditEvent, Detail}
use aigov.Model.Rows.Tree.{AnswersBlob}
use aigov.Model.Session.{Session}
use aigov.Prelude.{
  Error, Exec, Option, [], guard, http, lit, modify, nat_eq, none, not, or_error, pure, read, some,
  update_rows, ℕ, ◌++◌, ◌+◌, ◌==◌, ◌>>=◌, ◌>>◌, ◌∷◌,
}

abbrev pub no_current_snapshot : Error
no_current_snapshot =
    http 404 (lit "No current classification snapshot found for this use case." ∷ [])

abbrev pub already_approved : Error
already_approved = http 409 (lit "Classification is already approved." ∷ [])

abbrev pub not_pending : ClassificationStatus → Error
not_pending s = http 409 (
    lit "Cannot sign off a classification with status"
    ∷ lit " '"
    ∷ lit (classification_status_value s)
    ∷ lit "'."
    ∷ [])

abbrev pub tree_version_of : Option AnswersBlob → Detail
tree_version_of none = Detail.null
tree_version_of (some blob) = Detail.text blob.tree_version

abbrev pub signed_off_event : UseCase → Classification → ℕ → Session → AuditEvent
signed_off_event use_case snapshot reviewer db = record {
  id = db.uuids db.drawn;
  tenant_id = use_case.tenant_id;
  actor_user_id = reviewer;
  action = "classification.signed_off";
  entity_type = "classification";
  entity_id = snapshot.id;
  detail =
      ("tier", Detail.text (eu_ai_act_tier_value snapshot.tier))
      ∷ ("version", Detail.num snapshot.version)
      ∷ ("tree_version", tree_version_of snapshot.answers_blob)
      ∷ [];
}

-- The flush of the approved snapshot and of the stamped use case, and the audit row.
unfoldable pub write_sign_off : UseCase → Classification → ℕ → Session → Session
write_sign_off use_case snapshot reviewer db = record db {
  classifications =
      update_rows (λ r. r.id == snapshot.id)
        (λ r. record r { status = ClassificationStatus.approved }) db.classifications;
  use_cases =
      update_rows (λ u. u.id == use_case.id) (λ u. record u { eu_tier = snapshot.tier })
        db.use_cases;
  audit_events = db.audit_events ++ signed_off_event use_case snapshot reviewer db ∷ [];
  drawn = db.drawn + 1;
}

unfoldable pub sign_off_classification : UseCase → ℕ → Exec Session Classification
unfolding write_sign_off advance_use_case
sign_off_classification use_case reviewer = do
  snapshot ← read (λ db. or_error no_current_snapshot (current_snapshot use_case db))
  guard (not (snapshot.status == ClassificationStatus.approved)) already_approved
  guard (snapshot.status == ClassificationStatus.pending_review) (not_pending snapshot.status)
  modify (write_sign_off use_case snapshot reviewer)
  advance_use_case (record use_case { eu_tier = snapshot.tier }) reviewer
  pure (record snapshot { status = ClassificationStatus.approved })
