-- ===== src/ContextClassification/Recording.antt =====
-- `compute_and_record_classification` of app/services/context_classification.py.
use aigov.ClassificationService.Snapshot.{is_current_of, prior_version, text_or_null, tier_or_null}
use aigov.ContextClassification.Blob.{answers_blob_of, outcome_kind_value}
use aigov.ContextClassification.Resolver.{
  ContextOutcome, OutcomeKind, resolve_context_classification,
}
use aigov.ContextClassification.Tree.{AnswerIn, is_storable, load_tree}
use aigov.ContextClassification.Walk.{lookup_option, truthy}
use aigov.Lifecycle.Advance.{advance_use_case}
use aigov.Model.Enums.Lifecycle.{
  ClassificationStatus, EuAiActTier, eu_ai_act_tier_eq, eu_ai_act_tier_value,
}
use aigov.Model.Rows.Assessment.{Classification}
use aigov.Model.Rows.Domain.{UseCase}
use aigov.Model.Rows.Lifecycle.{AuditEvent, Detail}
use aigov.Model.Rows.Tree.{AnswersBlob}
use aigov.Model.Session.{Session}
use aigov.Prelude.{
  Bool, Error, Exec, List, Message, Option, Result, String, [], attribute_error, err, false, gets,
  guard, http, if◌then◌else◌, lit, modify, nat_eq, none, not, ok, or_error, pure, read,
  runtime_error, some, string_eq, true, update_rows, ℕ, ◌++◌, ◌+◌, ◌==◌, ◌>>=◌, ◌>>◌, ◌∷◌,
}

-- `outcome.kind == "UNRESOLVED"`
abbrev pub is_unresolved : OutcomeKind → Bool
is_unresolved OutcomeKind.unresolved = true
is_unresolved OutcomeKind.resolved = false
is_unresolved OutcomeKind.prohibited_halt = false

-- `overridden`, `proposed_tier` and `stored_tier`.
pub record Override : Type 0 where
  pub overridden : Bool
  pub proposed_tier : Option EuAiActTier
  pub stored_tier : EuAiActTier

abbrev pub bad_override : EuAiActTier → Error
bad_override tier = http 422 (
    lit "Cannot override to tier '"
    ∷ lit (eu_ai_act_tier_value tier)
    ∷ lit "':"
    ∷ lit " not a valid tier."
    ∷ [])

abbrev pub computed_tier : EuAiActTier → Override
computed_tier tier = record { overridden = false; proposed_tier = none; stored_tier = tier }

abbrev pub override_with : EuAiActTier → EuAiActTier → Override
override_with tier chosen = record {
  overridden = true;
  proposed_tier = some tier;
  stored_tier = chosen;
}

unfoldable pub override_of : EuAiActTier → Option EuAiActTier → Result Override
unfolding is_storable
override_of tier none = ok (computed_tier tier)
override_of tier (some chosen) =
    if chosen == tier
    then ok (computed_tier tier)
    else if is_storable chosen
    then ok (override_with tier chosen)
    else err (bad_override chosen)

abbrev pub not_storable : EuAiActTier → Error
not_storable tier = runtime_error (
    lit "Invariant violation: attempted to write '"
    ∷ lit (eu_ai_act_tier_value tier)
    ∷ lit "' to "
    ∷ lit "classification.tier — only real tiers are permitted."
    ∷ [])

abbrev pub context_rationale : ContextOutcome → Override → Option String → Message
context_rationale out o justification =
    if not o.overridden then out.rationale else elim (truthy justification) [
      | some reason ↦ out.rationale ++ lit "\n\nOverride justification: " ∷ lit reason ∷ []
      | none ↦
          out.rationale
          ++ lit "\n\nTier overridden to " ∷ lit (eu_ai_act_tier_value o.stored_tier) ∷ lit "." ∷ []
    ]

abbrev pub pending_snapshot :
    UseCase → ContextOutcome → Override → Option String → AnswersBlob → Session → Classification
pending_snapshot use_case out o justification blob db = record {
  id = db.uuids db.drawn;
  tenant_id = use_case.tenant_id;
  use_case_id = use_case.id;
  tier = o.stored_tier;
  rationale = context_rationale out o justification;
  answers_blob = some blob;
  version = prior_version use_case db.classifications + 1;
  is_current = true;
  overridden = o.overridden;
  proposed_tier = o.proposed_tier;
  basis_subcategory_code = out.subcategory_code;
  basis_legal_ref = none;
  status = ClassificationStatus.pending_review;
  off_label = false;
}

abbrev pub context_override_detail : Override → Option String → List (String × Detail)
context_override_detail o justification =
    if o.overridden
    then ("proposed_tier", tier_or_null o.proposed_tier)
      ∷ ("justification", text_or_null justification)
      ∷ []
    else []

abbrev pub context_event :
    UseCase
    → Classification
    → ContextOutcome
    → Override
    → String
    → Option String
    → ℕ
    → Session
    → AuditEvent
context_event use_case row out o version justification actor db = record {
  id = db.uuids (db.drawn + 1);
  tenant_id = use_case.tenant_id;
  actor_user_id = actor;
  action = if o.overridden then "classification.overridden" else "classification.created";
  entity_type = "classification";
  entity_id = row.id;
  detail =
      ("tier", Detail.text (eu_ai_act_tier_value o.stored_tier))
      ∷ ("outcome_kind", Detail.text (outcome_kind_value out.kind))
      ∷ ("tree_version", Detail.text version)
      ∷ ("version", Detail.num row.version)
      ∷ ("basis_subcategory_code", text_or_null out.subcategory_code)
      ∷ context_override_detail o justification;
}

-- The prior snapshot is no longer current, the new one is, and the audit row is added.
unfoldable pub write_pending :
    UseCase
    → Classification
    → ContextOutcome
    → Override
    → String
    → Option String
    → ℕ
    → Session
    → Session
write_pending use_case row out o version justification actor db = record db {
  classifications =
      update_rows (is_current_of use_case) (λ r. record r { is_current = false }) db.classifications
      ++ row ∷ [];
  audit_events =
      db.audit_events ++ context_event use_case row out o version justification actor db ∷ [];
  drawn = db.drawn + 2;
}

-- The arguments of a request.
pub record Submission : Type 0 where
  pub answers : List AnswerIn
  pub tree_version : String
  pub override_tier : Option EuAiActTier
  pub justification : Option String

-- The writes for an outcome with a tier, and the advance that they drive.
unfoldable pub record_outcome :
    UseCase
    → Submission
    → ℕ
    → ContextOutcome
    → EuAiActTier
    → Exec Session (ContextOutcome × Option Classification)
unfolding override_of is_storable lookup_option load_tree write_pending advance_use_case
record_outcome use_case asked actor out tier = do
  o ← read (λ db. override_of tier asked.override_tier)
  guard (is_storable o.stored_tier) (not_storable o.stored_tier)
  tree ← read (load_tree asked.tree_version)
  row ← gets (
      pending_snapshot use_case out o asked.justification
        (answers_blob_of asked.tree_version tree asked.answers out o.stored_tier))
  modify (write_pending use_case row out o asked.tree_version asked.justification actor)
  advance_use_case use_case actor
  pure (out, some row)

unfoldable pub compute_and_record_classification :
    UseCase → Submission → ℕ → Exec Session (ContextOutcome × Option Classification)
unfolding resolve_context_classification record_outcome
compute_and_record_classification use_case asked actor = do
  out ← read (resolve_context_classification asked.answers asked.tree_version)
  if is_unresolved out.kind then pure (out, none) else (do
    tier ← read (λ db. or_error attribute_error out.tier)
    record_outcome use_case asked actor out tier)
