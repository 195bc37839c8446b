-- ===== src/Authoring/Filling.antt =====
-- What the pre-filling of a new assessment keeps (app/services/assessment_service.py): what the
-- addition of an untouched item of that assessment keeps, and an audit row.
use aigov.Authoring.Creation.{prefill_aiia}
use aigov.Authoring.Deletion.{is_worked}
use aigov.Authoring.Feeders.{prefill_feeder}
use aigov.Authoring.Rows.{
  Fact, ProposedRisk, add_item, add_proposed_risk_items, add_snapshot_items,
  instantiate_required_sections, is_instantiated, proposed_item, section_item, snapshot_item,
}
use aigov.Items.{stage_audit}
use aigov.Model.Rows.Assessment.{Assessment, AssessmentItem}
use aigov.Model.Rows.Domain.{System, UseCase}
use aigov.Model.Rows.Knowledge.{AssessmentSectionTemplate}
use aigov.Model.Rows.Lifecycle.{Detail}
use aigov.Model.Session.{Session, TenantContext}
use aigov.Prelude.{
  Keeps, Keeps-bind, Keeps-if, Keeps-pure, List, Option, String, [], false, keeps_rules, nat_eq,
  refl, ℕ, ◌+◌, ◌∷◌, ◌≡◌,
}

module _ (id : ℕ) (P : Session → Type 0)
    (adds : (item_with : ℕ → AssessmentItem)
      → ((n : ℕ) → (item_with n).id ≡ n)
      → ((n : ℕ) → (item_with n).assessment_id ≡ id)
      → ((n : ℕ) → is_worked (item_with n) ≡ false)
      → Keeps P (add_item item_with))
    (audits : (ctx : TenantContext) (action entity_type : String) (entity_id : ℕ)
        (detail : List (String × Detail))
      → Keeps P (stage_audit ctx action entity_type entity_id detail)) where
  section_item-Keeps :
      (ctx : TenantContext) (tmpl : AssessmentSectionTemplate)
      → Keeps P (add_item (section_item ctx id tmpl))
  section_item-Keeps ctx tmpl = adds (section_item ctx id tmpl) (λ n. refl) (λ n. refl) (λ n. refl)

  snapshot_item-Keeps :
      (ctx : TenantContext) (section_key : String) (fact : Fact)
      → Keeps P (add_item (snapshot_item ctx id section_key fact))
  snapshot_item-Keeps ctx section_key fact =
      adds (snapshot_item ctx id section_key fact) (λ n. refl) (λ n. refl) (λ n. refl)

  proposed_item-Keeps :
      (ctx : TenantContext) (section_key : String) (p : ProposedRisk)
      → Keeps P (add_item (proposed_item ctx id section_key p))
  proposed_item-Keeps ctx section_key p =
      adds (proposed_item ctx id section_key p) (λ n. refl) (λ n. refl) (λ n. refl)

  pub instantiate_required_sections-Keeps :
      (ctx : TenantContext) (skip : Option String) (rows : List AssessmentSectionTemplate)
      → Keeps P (instantiate_required_sections ctx id skip rows)
  unfolding instantiate_required_sections
  instantiate_required_sections-Keeps ctx skip [] = search keeps_rules
  instantiate_required_sections-Keeps ctx skip (tmpl ∷ rows) =
      let rest = instantiate_required_sections-Keeps ctx skip rows in
      Keeps-if (is_instantiated skip tmpl) _ _
        (Keeps-bind _ _ (section_item-Keeps ctx tmpl)
          (λ item. Keeps-bind _ _ rest (λ count. Keeps-pure (count + 1))))
        rest

  pub add_snapshot_items-Keeps :
      (ctx : TenantContext) (section_key : String) (facts : List Fact)
      → Keeps P (add_snapshot_items ctx id section_key facts)
  unfolding add_snapshot_items
  add_snapshot_items-Keeps ctx section_key [] = search keeps_rules
  add_snapshot_items-Keeps ctx section_key (fact ∷ facts) =
      let rest = add_snapshot_items-Keeps ctx section_key facts in
      Keeps-bind _ _ (snapshot_item-Keeps ctx section_key fact)
        (λ item. Keeps-bind _ _ rest (λ count. Keeps-pure (count + 1)))

  pub add_proposed_risk_items-Keeps :
      (ctx : TenantContext) (section_key : String) (proposed : List ProposedRisk)
      → Keeps P (add_proposed_risk_items ctx id section_key proposed)
  unfolding add_proposed_risk_items
  add_proposed_risk_items-Keeps ctx section_key [] = search keeps_rules
  add_proposed_risk_items-Keeps ctx section_key (p ∷ proposed) =
      let rest = add_proposed_risk_items-Keeps ctx section_key proposed in
      Keeps-bind _ _ (proposed_item-Keeps ctx section_key p) (λ item. rest)

  ruleset prefill_rules = (
    keeps_rules, instantiate_required_sections-Keeps, add_snapshot_items-Keeps,
    add_proposed_risk_items-Keeps,
  )

  pub prefill_aiia-Keeps :
      (use_case : UseCase) (system : Option System) (version : ℕ)
      (rows : List AssessmentSectionTemplate) (a : Assessment) (ctx : TenantContext)
      → a.id ≡ id
      → Keeps P (prefill_aiia use_case system version rows a ctx)
  unfolding prefill_aiia
  prefill_aiia-Keeps use_case system version rows a ctx own =
      rw own (search (prefill_rules, audits) depth 20)

  pub prefill_feeder-Keeps :
      (parent : Assessment) (rows : List AssessmentSectionTemplate) (feeder : Assessment)
      (ctx : TenantContext)
      → feeder.id ≡ id
      → Keeps P (prefill_feeder parent rows feeder ctx)
  unfolding prefill_feeder
  prefill_feeder-Keeps parent rows feeder ctx own = rw own (search (prefill_rules, audits) depth 24)
