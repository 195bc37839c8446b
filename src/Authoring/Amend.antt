-- ===== src/Authoring/Amend.antt =====
-- The amendment of an item (app/services/assessment_service.py).
use aigov.Items.{
  assert_authoring_unlocked, assessment_by_id, load_item, refresh_item, stage_item_audit,
}
use aigov.Lifecycle.Advance.{advance_use_case}
use aigov.Model.Enums.Assessment.{
  ProvenanceConfidence, TreatmentDecision, provenance_confidence_eq, provenance_confidence_value,
  treatment_decision_eq, treatment_decision_value,
}
use aigov.Model.Rows.Assessment.{AssessmentItem}
use aigov.Model.Rows.Lifecycle.{Detail}
use aigov.Model.Session.{Session, TenantContext}
use aigov.Prelude.{
  Bool, Eq, Error, Exec, List, Option, String, [], any_row, err, false, guard, holds, http,
  if◌then◌else◌, is_empty, lit, nat_eq, none, not, ok, pure, read, some, string_eq, update_rows, ℕ,
  ◌&&◌, ◌++◌, ◌+◌, ◌==◌, ◌>>=◌, ◌>>◌, ◌∷◌,
}
use aigov.Review.{use_case_of}

pub record AssessmentItemAmend : Type 0 where
  pub response : Option String
  pub likelihood : Option ℕ
  pub severity : Option ℕ
  pub residual_likelihood : Option ℕ
  pub residual_severity : Option ℕ
  pub mitigation_plan : Option String
  pub treatment_decision : Option TreatmentDecision
  pub treatment_rationale : Option String

module _ {A : Type 0} ⦃e : Eq A⦄ where
  -- `new_value is not None and new_value != old_value`
  abbrev pub differs : Option A → Option A → Bool
  differs none old = false
  differs (some new) old = not (holds old new)

  abbrev pub show_or_null : (A → Detail) → Option A → Detail
  show_or_null show none = Detail.null
  show_or_null show (some a) = show a

  -- The entry of a field in `changes`, if there is one.
  abbrev pub change_of : String → (A → Detail) → Option A → Option A → List (String × Detail)
  change_of field show new old =
      if differs new old
      then (field, Detail.change (show_or_null show old) (show_or_null show new)) ∷ []
      else []

  -- The value of a column after the UPDATE, which sets it if the field has changed.
  abbrev pub set_if : Bool → Option A → Option A → Option A
  set_if changed new old = if changed then new else old

-- The loop over `_AUTHORING_FIELDS`
unfoldable pub authoring_changes : AssessmentItemAmend → AssessmentItem → List (String × Detail)
authoring_changes patch item =
    change_of "response" Detail.text patch.response item.response
    ++ (change_of "likelihood" Detail.num patch.likelihood item.likelihood
        ++ (change_of "severity" Detail.num patch.severity item.severity
            ++ (change_of "residual_likelihood" Detail.num patch.residual_likelihood
                  item.residual_likelihood
                ++ (change_of "residual_severity" Detail.num patch.residual_severity
                      item.residual_severity
                    ++ change_of "mitigation_plan" Detail.text patch.mitigation_plan
                        item.mitigation_plan))))

abbrev pub show_decision : TreatmentDecision → Detail
show_decision d = Detail.text (treatment_decision_value d)

-- The loop over `_TREATMENT_FIELDS`
unfoldable pub treatment_changes : AssessmentItemAmend → AssessmentItem → List (String × Detail)
treatment_changes patch item =
    change_of "treatment_decision" show_decision patch.treatment_decision item.treatment_decision
    ++ change_of "treatment_rationale" Detail.text patch.treatment_rationale
        item.treatment_rationale

-- Authoring a curated item makes it the user's; treatment leaves the provenance alone.
abbrev pub amended_provenance : Bool → ProvenanceConfidence → ProvenanceConfidence
amended_provenance authored provenance =
    if authored && (provenance == ProvenanceConfidence.catalogue_curated)
    then ProvenanceConfidence.user_amended
    else provenance

-- The values of the UPDATE, on a row that it matches.
abbrev pub amended : AssessmentItemAmend → AssessmentItem → Bool → AssessmentItem → AssessmentItem
amended patch item authored row = record row {
  response = set_if (differs patch.response item.response) patch.response row.response;
  likelihood = set_if (differs patch.likelihood item.likelihood) patch.likelihood row.likelihood;
  severity = set_if (differs patch.severity item.severity) patch.severity row.severity;
  residual_likelihood =
      set_if (differs patch.residual_likelihood item.residual_likelihood) patch.residual_likelihood
        row.residual_likelihood;
  residual_severity =
      set_if (differs patch.residual_severity item.residual_severity) patch.residual_severity
        row.residual_severity;
  mitigation_plan =
      set_if (differs patch.mitigation_plan item.mitigation_plan) patch.mitigation_plan
        row.mitigation_plan;
  treatment_decision =
      set_if (differs patch.treatment_decision item.treatment_decision) patch.treatment_decision
        row.treatment_decision;
  treatment_rationale =
      set_if (differs patch.treatment_rationale item.treatment_rationale) patch.treatment_rationale
        row.treatment_rationale;
  provenance = if authored then amended_provenance authored item.provenance else row.provenance;
  lock_version = row.lock_version + 1;
}

abbrev pub is_amendable : ℕ → ℕ → TenantContext → AssessmentItem → Bool
is_amendable item_id expected_lock_version ctx row =
    row.id == item_id && row.tenant_id == ctx.tenant_id && row.lock_version == expected_lock_version

abbrev pub undecided : Error
undecided = http 409 (lit "Confirm or amend the proposed risk before authoring this item" ∷ [])

abbrev pub stale_item : Error
stale_item = http 412 (lit "Stale If-Match: item was modified by another request" ∷ [])

unfoldable pub update_amended :
    ℕ → ℕ → TenantContext → (AssessmentItem → AssessmentItem) → Exec Session (Unit {0})
update_amended item_id expected_lock_version ctx values db =
    if any_row (is_amendable item_id expected_lock_version ctx) db.items
    then (
      ok tt,
      record db {
        items = update_rows (is_amendable item_id expected_lock_version ctx) values db.items;
      },
    )
    else (err stale_item, db)

-- What the item in the session shows once the UPDATE is executed: SQLAlchemy synchronises the objects
-- that it matches. (loaded, written) ↦ seen.
abbrev pub Synchronised : Type 0
Synchronised = AssessmentItem → AssessmentItem → AssessmentItem

abbrev pub provenance_change :
    Bool → ProvenanceConfidence → ProvenanceConfidence → List (String × Detail)
provenance_change authored before after =
    if authored
    then (
      "provenance",
      Detail.change (Detail.text (provenance_confidence_value before))
          (Detail.text (provenance_confidence_value after)),
    )
      ∷ []
    else []

abbrev pub amend_action : Bool → String
amend_action treated =
    if treated then "assessment_item.treatment_set" else "assessment_item.amended"

-- A treatment decision can satisfy the treatment gate.
unfoldable pub after_treatment : Bool → AssessmentItem → TenantContext → Exec Session (Unit {0})
unfolding use_case_of advance_use_case
after_treatment treated item ctx =
    let drive = (do
      assessment ← read (assessment_by_id item.assessment_id)
      use_case ← read (use_case_of assessment)
      advance_use_case use_case ctx.user_id
      pure tt) in
    if treated then drive else pure tt

-- The part of an amendment that changes something.
unfoldable pub write_amendment :
    Synchronised
    → AssessmentItem
    → AssessmentItemAmend
    → ℕ
    → ℕ
    → TenantContext
    → Exec Session AssessmentItem
unfolding authoring_changes treatment_changes update_amended after_treatment
write_amendment synchronised item patch item_id expected_lock_version ctx =
    let changes = authoring_changes patch item in
    let treatments = treatment_changes patch item in
    let authored = not (is_empty changes) in
    let treated = not (is_empty treatments) in
    let values = amended patch item authored in
    do
      guard (not (item.provenance == ProvenanceConfidence.ai_suggested)) undecided
      update_amended item_id expected_lock_version ctx values
      stage_item_audit ctx (amend_action treated) item_id (
          changes
          ++ (treatments
              ++ provenance_change authored (synchronised item (values item)).provenance
                  (amended_provenance authored item.provenance)))
      refreshed ← read (refresh_item item.id)
      after_treatment treated refreshed ctx
      pure refreshed

unfoldable pub amend_item :
    Synchronised → ℕ → AssessmentItemAmend → ℕ → TenantContext → Exec Session AssessmentItem
unfolding load_item assert_authoring_unlocked authoring_changes treatment_changes write_amendment
amend_item synchronised item_id patch expected_lock_version ctx = do
  item ← read (load_item item_id ctx)
  assert_authoring_unlocked item.assessment_id
  if is_empty (authoring_changes patch item) && is_empty (treatment_changes patch item)
      then pure item
      else write_amendment synchronised item patch item_id expected_lock_version ctx
