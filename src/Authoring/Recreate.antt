-- ===== src/Authoring/Recreate.antt =====
-- An AIIA that nobody has worked on can be deleted again (app/services/assessment_service.py).
use aigov.Authoring.Creation.{
  aiia_exists, create_aiia, insert_assessment, is_current_aiia_of, no_template, prefill_aiia,
  readiness_guard,
}
use aigov.Authoring.Deletion.{delete_assessment}
use aigov.Authoring.Filling.{prefill_aiia-Keeps}
use aigov.Authoring.Prefill.{
  HasUnlinkedSupply, HasUnusedSupply, Prefilled, Prefilled-refl, add_item-Prefilled,
  stage_audit-Prefilled,
}
use aigov.Authoring.Pristine.{Deletes, Deletes-Prefilled}
use aigov.Authoring.Rows.{new_assessment}
use aigov.Authoring.Sections.{templates_for}
use aigov.Gates.Verdict.{GateResult}
use aigov.Model.Enums.Assessment.{AssessmentType}
use aigov.Model.Rows.Assessment.{Assessment}
use aigov.Model.Rows.Domain.{System, UseCase}
use aigov.Model.Rows.Knowledge.{AssessmentSectionTemplate}
use aigov.Model.Session.{Session, TenantContext}
use aigov.Prelude.{
  After, After-of_ok, After-returned, Bool-cases, Exec, From, From-quiet, List, Option, Yields, [],
  and_then, any_row, arith, from_rules, gets, guard, inl, inr, is_empty, nat_eq, not, ok, refl,
  yields_rules, ℕ, ◌++◌, ◌+◌, ◌>>=◌, ◌>>◌, ◌∷◌, ◌≡◌,
}

pub readiness_guard-same : (gate : GateResult) (db : Session) → (readiness_guard gate db).1 ≡ db
unfolding readiness_guard
readiness_guard-same gate db = ground arith

prefill_aiia-Yields :
    (use_case : UseCase) (system : Option System) (version : ℕ)
    (rows : List AssessmentSectionTemplate) (a : Assessment) (ctx : TenantContext)
    → Yields (λ b. b ≡ a) (prefill_aiia use_case system version rows a ctx)
unfolding prefill_aiia
prefill_aiia-Yields use_case system version rows a ctx = search yields_rules depth 20

insert_aiia-After :
    (use_case_id : ℕ) (ctx : TenantContext) (db : Session)
    → HasUnusedSupply db
    → (use_case : UseCase) (system : Option System) (version : ℕ)
      (rows : List AssessmentSectionTemplate)
    → After (Deletes ctx db) (
        and_then
          (λ a. prefill_aiia use_case system version rows a ctx)
          (insert_assessment
            (is_current_aiia_of use_case_id)
            aiia_exists
            (λ id. new_assessment id ctx use_case_id AssessmentType.aiia use_case.eu_tier version)
            db))
insert_aiia-After use_case_id ctx db fresh use_case system version rows =
    elim (Bool-cases (any_row (is_current_aiia_of use_case_id) db.assessments)) [
      | inl taken ↦ rw taken tt
      | inr vacant ↦ rw vacant (
          let a =
            new_assessment (db.uuids db.drawn) ctx use_case_id AssessmentType.aiia use_case.eu_tier
              version in
          let start : Session = record db {
            assessments = db.assessments ++ a ∷ [];
            drawn = db.drawn + 1;
          } in
          let unlinked : HasUnlinkedSupply start = λ n le.
            let f = fresh n (omega arith) in
            record { controls = f.no_control_link; evidence = f.no_evidence_link } in
          After-of_ok (Deletes ctx db) (prefill_aiia use_case system version rows a ctx start)
            λ b e.
              let same =
                After-returned (λ c _. c ≡ a) _
                  ((prefill_aiia-Yields use_case system version rows a ctx).at start) e in
              rw same (
                Deletes-Prefilled db a (fresh db.drawn (omega arith)) refl refl ctx start _ refl
                  (refl, refl, refl, refl, refl, refl)
                  ((prefill_aiia-Keeps a.id (Prefilled a.id start)
                      (add_item-Prefilled a.id start unlinked)
                      (stage_audit-Prefilled a.id start unlinked) use_case system version rows a ctx
                      refl).at
                    start (Prefilled-refl a.id start))))
    ]

insert_aiia-From :
    (use_case_id : ℕ) (ctx : TenantContext) (db : Session)
    → HasUnusedSupply db
    → (use_case : UseCase) (system : Option System) (version : ℕ)
      (rows : List AssessmentSectionTemplate)
    → From db (Deletes ctx db) (
        insert_assessment
          (is_current_aiia_of use_case_id)
          aiia_exists
          (λ id. new_assessment id ctx use_case_id AssessmentType.aiia use_case.eu_tier version)
        >>= λ a. prefill_aiia use_case system version rows a ctx)
insert_aiia-From use_case_id ctx db fresh use_case system version rows = record {
  at = insert_aiia-After use_case_id ctx db fresh use_case system version rows;
}

readiness_guard-From :
    (db : Session) {Q : Assessment → Session → Type 0} (gate : GateResult)
    (next : Unit → Exec Session Assessment)
    → From db Q (next tt)
    → From db Q (readiness_guard gate >>= next)
readiness_guard-From db gate next h =
    From-quiet (readiness_guard gate) next (readiness_guard-same gate db) (λ _ _. h)

scoped_aiia-From :
    (use_case_id : ℕ) (ctx : TenantContext) (db : Session)
    → HasUnusedSupply db
    → (use_case : UseCase) (system : Option System) (version : ℕ)
    → From db (Deletes ctx db) (do
      taken ← gets (λ s. any_row (is_current_aiia_of use_case_id) s.assessments)
      guard (not taken) aiia_exists
      template_rows ← gets (templates_for AssessmentType.aiia use_case.eu_tier)
      guard (not (is_empty template_rows)) (no_template "AIIA" use_case.eu_tier)
      assessment ←
          insert_assessment
            (is_current_aiia_of use_case_id)
            aiia_exists
            (λ id. new_assessment id ctx use_case_id AssessmentType.aiia use_case.eu_tier version)
      prefill_aiia use_case system version template_rows assessment ctx)
scoped_aiia-From use_case_id ctx db fresh use_case system version =
    let last = insert_aiia-From use_case_id ctx db fresh use_case system version in
    search (from_rules, last) depth 20

create_aiia-From :
    (use_case_id : ℕ) (ctx : TenantContext) (db : Session)
    → HasUnusedSupply db
    → From db (Deletes ctx db) (create_aiia use_case_id ctx)
unfolding create_aiia
create_aiia-From use_case_id ctx db fresh =
    let last = scoped_aiia-From use_case_id ctx db fresh in
    search (from_rules, readiness_guard-From, last) depth 20

-- An AIIA that was just created, with all its pre-filled sections, register facts and proposed
-- risks, can be deleted at once, and the tables of the assessments and of the items are then what
-- they were before, row for row. The ids that the supply gives are taken to be unused.
pub delete_assessment-create_aiia :
    (use_case_id : ℕ) (ctx : TenantContext) (db : Session) (a : Assessment)
    → HasUnusedSupply db
    → (create_aiia use_case_id ctx db).0 ≡ ok a
    → let created = (create_aiia use_case_id ctx db).1 in
      ((delete_assessment a.id ctx created).0 ≡ ok tt)
      × ((delete_assessment a.id ctx created).1.assessments ≡ db.assessments)
      × ((delete_assessment a.id ctx created).1.items ≡ db.items)
delete_assessment-create_aiia use_case_id ctx db a fresh h =
    After-returned (Deletes ctx db) (create_aiia use_case_id ctx db)
      (create_aiia-From use_case_id ctx db fresh).at h
