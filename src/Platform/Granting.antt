-- ===== src/Platform/Granting.antt =====
-- `authorise_use_case` (app/services/authorisation_service.py) on a lawful session.
use aigov.Authorisation.{
  add_authorisation, authorise_use_case, grant, is_ready, load_current_aiia, load_use_case,
  new_authorisation, not_ready,
}
use aigov.Authorisation.Grant.{load_use_case-tenant}
use aigov.Governance.{assert_distinct_workflow_actor}
use aigov.Lifecycle.Legality.{Event}
use aigov.Lifecycle.Transition.{apply_transition}
use aigov.Model.Enums.Lifecycle.{LifecycleState}
use aigov.Model.Rows.Assessment.{Assessment}
use aigov.Model.Rows.Domain.{UseCase}
use aigov.Model.Rows.Lifecycle.{DeploymentAuthorisation}
use aigov.Model.Session.{Session, TenantContext}
use aigov.Platform.Lawful.{IsLawful, apply_transition-IsLawful, is_grant_of, is_granted}
use aigov.Prelude.{
  All-map, Keeps, Keeps-and_then, Keeps-pure, Keeps-read, List, String, [], any_row, any_row-append,
  any_row-last, arith, gets, guard, keeps_rules, lift, lit, nat_eq, none, pure, read, refl, some,
  true, ℕ, ◌++◌, ◌>>=◌, ◌>>◌, ◌∷◌, ◌≡◌,
}

still_granted :
    (u : UseCase) (rows : List DeploymentAuthorisation) (row : DeploymentAuthorisation)
    → is_granted rows u ≡ true
    → is_granted (rows ++ row ∷ []) u ≡ true
still_granted u rows row h = rw any_row-append (ground arith)

-- The insert of an authorisation.
add_authorisation-IsLawful :
    (u : UseCase) (a : Assessment) (statement : String) (ctx : TenantContext) (db : Session)
    → IsLawful db
    → IsLawful (add_authorisation u a statement ctx db).1
unfolding add_authorisation
add_authorisation-IsLawful u a statement ctx db h = record {
  sound = record { keyed = h.sound.keyed; traced = h.sound.traced; hinted = h.sound.hinted };
  granted =
      All-map (λ v. is_granted db.authorisations v ≡ true)
        (λ v.
          is_granted (db.authorisations ++ new_authorisation u a statement ctx db ∷ []) v ≡ true)
        (λ v granted.
          still_granted v db.authorisations (new_authorisation u a statement ctx db) granted)
        db.use_cases h.granted;
}

new_grant :
    (u : UseCase) (a : Assessment) (statement : String) (ctx : TenantContext) (db : Session)
    → ctx.tenant_id ≡ u.tenant_id
    → any_row
        (is_grant_of u.id u.tenant_id)
        (add_authorisation u a statement ctx db).1.authorisations
      ≡ true
unfolding add_authorisation
new_grant u a statement ctx db tenant =
    any_row-last (is_grant_of u.id u.tenant_id) db.authorisations
      (new_authorisation u a statement ctx db)
      (rw
        (tenant, (nat_eq.beq_iff u.id u.id).1 refl, (nat_eq.beq_iff u.tenant_id u.tenant_id).1 refl)
        refl)

grant-IsLawful :
    (u : UseCase) (a : Assessment) (statement : String) (ctx : TenantContext) (db : Session)
    → ctx.tenant_id ≡ u.tenant_id
    → IsLawful db
    → IsLawful (grant u a statement ctx db).1
unfolding grant
grant-IsLawful u a statement ctx db tenant h =
    let db1 = (add_authorisation u a statement ctx db).1 in
    let moved =
      apply_transition u Event.authorise LifecycleState.authorised ctx.user_id
        (some (lit "Deployment authorisation granted" ∷ [])) none db1 in
    Keeps-and_then {P = IsLawful} (λ _. pure (new_authorisation u a statement ctx db))
      (λ _. Keeps-pure (new_authorisation u a statement ctx db)) moved.0 moved.1
      (apply_transition-IsLawful u Event.authorise LifecycleState.authorised ctx.user_id
        (some (lit "Deployment authorisation granted" ∷ [])) none db1
        (new_grant u a statement ctx db tenant) (add_authorisation-IsLawful u a statement ctx db h))

past_load-Keeps :
    (u : UseCase) (statement : String) (ctx : TenantContext)
    → ctx.tenant_id ≡ u.tenant_id
    → Keeps IsLawful (do
      a ← read (load_current_aiia u)
      ready ← gets (is_ready u)
      guard ready not_ready
      lift (
          assert_distinct_workflow_actor ctx.user_id
            (a.approved_by_user_id ∷ a.submitted_by_user_id ∷ [])
            "authorise")
      grant u a statement ctx)
past_load-Keeps u statement ctx tenant =
    let granting : (a : Assessment) → Keeps IsLawful (grant u a statement ctx) =
      λ a. record { at = λ db. grant-IsLawful u a statement ctx db tenant } in
    search (keeps_rules, granting) depth 20

pub authorise_use_case-Keeps :
    (id : ℕ) (statement : String) (ctx : TenantContext)
    → Keeps IsLawful (authorise_use_case id statement ctx)
unfolding authorise_use_case
authorise_use_case-Keeps id statement ctx = Keeps-read (load_use_case id ctx) _ (λ u db loaded.
    (past_load-Keeps u statement ctx (load_use_case-tenant id ctx db u loaded)).at db)
