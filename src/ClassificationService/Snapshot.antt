-- ===== src/ClassificationService/Snapshot.antt =====
-- `snapshot_classification` of app/services/classification.py.
use aigov.ClassificationService.{ClassificationProposal}
use aigov.Lifecycle.Advance.{advance_use_case}
use aigov.Model.Enums.Lifecycle.{
  ClassificationStatus, EuAiActTier, classification_disposition_value, eu_ai_act_tier_value,
}
use aigov.Model.Rows.Assessment.{Classification}
use aigov.Model.Rows.Domain.{UseCase}
use aigov.Model.Rows.Lifecycle.{AuditEvent, Detail}
use aigov.Model.Session.{Session}
use aigov.Prelude.{
  Bool, Exec, List, Message, Option, String, [], false, if◌then◌else◌, lit, ltb, nat_eq, none, pure,
  some, string_eq, true, update_rows, ℕ, ◌&&◌, ◌++◌, ◌+◌, ◌==◌, ◌>>◌, ◌∷◌,
}

-- The keyword arguments of a snapshot.
pub record SnapshotOptions : Type 0 where
  pub overridden : Bool
  pub proposed_tier : Option EuAiActTier
  pub justification : Option String
  pub status : ClassificationStatus
  pub stamp_eu_tier : Bool
  pub off_label : Bool

-- The current snapshots of a use case.
abbrev pub is_current_of : UseCase → Classification → Bool
is_current_of use_case row = row.use_case_id == use_case.id && row.is_current

-- `select(version).where(...).order_by(version.desc()).limit(1)`, and 0 where there is none.
unfoldable pub prior_version : UseCase → List Classification → ℕ
prior_version use_case [] = 0
prior_version use_case (row ∷ rows) =
    let rest = prior_version use_case rows in
    if row.use_case_id == use_case.id && ltb rest row.version then row.version else rest

-- `justification`, where it is not None and not empty.
abbrev pub given : Option String → Option String
given none = none
given (some s) = if s == "" then none else some s

abbrev pub override_note : Option String → Message
override_note none = lit "\n\nTier overridden by user." ∷ []
override_note (some s) = lit "\n\nOverride justification: " ∷ lit s ∷ []

abbrev pub snapshot_rationale : ClassificationProposal → SnapshotOptions → Message
snapshot_rationale proposal options =
    if options.overridden
    then proposal.rationale ++ override_note (given options.justification)
    else proposal.rationale

abbrev pub new_snapshot :
    UseCase → ClassificationProposal → SnapshotOptions → Session → Classification
new_snapshot use_case proposal options db = record {
  id = db.uuids db.drawn;
  tenant_id = use_case.tenant_id;
  use_case_id = use_case.id;
  tier = proposal.tier;
  rationale = snapshot_rationale proposal options;
  answers_blob = none;
  version = prior_version use_case db.classifications + 1;
  is_current = true;
  overridden = options.overridden;
  proposed_tier = options.proposed_tier;
  basis_subcategory_code = proposal.subcategory_code;
  basis_legal_ref = proposal.legal_ref;
  status = options.status;
  off_label = options.off_label;
}

-- The use case's tier, stamped where that is asked for.
abbrev pub stamped : ClassificationProposal → SnapshotOptions → UseCase → UseCase
stamped proposal options use_case =
    if options.stamp_eu_tier then record use_case { eu_tier = proposal.tier } else use_case

abbrev pub text_or_null : Option String → Detail
text_or_null none = Detail.null
text_or_null (some s) = Detail.text s

abbrev pub tier_or_null : Option EuAiActTier → Detail
tier_or_null none = Detail.null
tier_or_null (some t) = Detail.text (eu_ai_act_tier_value t)

abbrev pub override_detail : SnapshotOptions → List (String × Detail)
override_detail options =
    if options.overridden
    then ("proposed_tier", tier_or_null options.proposed_tier)
      ∷ ("justification", text_or_null options.justification)
      ∷ []
    else []

abbrev pub snapshot_event :
    UseCase → Classification → ClassificationProposal → SnapshotOptions → ℕ → Session → AuditEvent
snapshot_event use_case row proposal options actor db = record {
  id = db.uuids (db.drawn + 1);
  tenant_id = use_case.tenant_id;
  actor_user_id = actor;
  action = if options.overridden then "classification.overridden" else "classification.created";
  entity_type = "classification";
  entity_id = row.id;
  detail =
      ("tier", Detail.text (eu_ai_act_tier_value proposal.tier))
      ∷ ("basis_subcategory_code", text_or_null proposal.subcategory_code)
      ∷ ("basis_legal_ref", text_or_null proposal.legal_ref)
      ∷ ("version", Detail.num row.version)
      ∷ ("disposition", Detail.text (classification_disposition_value proposal.disposition))
      ∷ ("off_label", Detail.flag options.off_label)
      ∷ override_detail options;
}

-- The writes of a snapshot: the prior one is no longer current, the new one is, the tier is stamped
-- on the row of the use case, and the audit row is added.
unfoldable pub write_snapshot :
    UseCase → ClassificationProposal → SnapshotOptions → ℕ → Session → Session
write_snapshot use_case proposal options actor db =
    let row = new_snapshot use_case proposal options db in
    record db {
      classifications =
          update_rows (is_current_of use_case) (λ r. record r { is_current = false })
            db.classifications
          ++ row ∷ [];
      use_cases = update_rows (λ u. u.id == use_case.id) (stamped proposal options) db.use_cases;
      audit_events = db.audit_events ++ snapshot_event use_case row proposal options actor db ∷ [];
      drawn = db.drawn + 2;
    }

-- The advance that the snapshot drives, with the object as it was stamped; its result is not used.
unfoldable pub snapshot_classification :
    UseCase → ClassificationProposal → SnapshotOptions → ℕ → Exec Session Classification
unfolding write_snapshot advance_use_case
snapshot_classification use_case proposal options actor db =
    (do
      advance_use_case (stamped proposal options use_case) actor
      pure (new_snapshot use_case proposal options db))
      (write_snapshot use_case proposal options actor db)
