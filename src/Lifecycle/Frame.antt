-- ===== src/Lifecycle/Frame.antt =====
-- What a transition changes of a use case, and what the gates read of it.
use aigov.Gates.Feeders.{categories_of, system_of}
use aigov.Gates.Frame.{SameReads}
use aigov.Lifecycle.Legality.{Event}
use aigov.Lifecycle.Transition.{commit_transition, row_matches, set_values}
use aigov.Model.Enums.Lifecycle.{LifecycleState}
use aigov.Model.Rows.Domain.{UseCase}
use aigov.Model.Session.{Session}
use aigov.Prelude.{
  Bool, Bool-cases, List, Message, Option, [], arith, find?, if◌then◌else◌, inl, inr, nat_eq, none,
  refl, some, update_rows, ℕ, ◌==◌, ◌∷◌, ◌≡◌,
}
use mathlib.Core.Option

-- Updating rows without touching their ids commutes with a look-up by id.
find?-update_rows :
    (p : UseCase → Bool) (f : UseCase → UseCase)
    → ((r : UseCase) → (f r).id ≡ r.id)
    → (i : ℕ) (rows : List UseCase)
    → find? (λ row. row.id == i) (update_rows p f rows)
      ≡ Option.map (λ r. if p r then f r else r) (find? (λ row. row.id == i) rows)
find?-update_rows p f keep i [] = refl
find?-update_rows p f keep i (r ∷ rows) = ground (arith, keep r, find?-update_rows p f keep i rows)

module _ (from_state : LifecycleState) (event : Event) (to_state : LifecycleState)
    (reason : Option Message) where
  pub set_values-id :
      (row : UseCase) → (set_values from_state event to_state reason row).id ≡ row.id
  unfolding set_values
  set_values-id row = ground arith

  pub set_values-tenant_id :
      (row : UseCase) → (set_values from_state event to_state reason row).tenant_id ≡ row.tenant_id
  unfolding set_values
  set_values-tenant_id row = ground arith

  pub set_values-system_id :
      (row : UseCase) → (set_values from_state event to_state reason row).system_id ≡ row.system_id
  unfolding set_values
  set_values-system_id row = ground arith

  pub set_values-eu_tier :
      (row : UseCase) → (set_values from_state event to_state reason row).eu_tier ≡ row.eu_tier
  unfolding set_values
  set_values-eu_tier row = ground arith

  pub set_values-state :
      (row : UseCase) → (set_values from_state event to_state reason row).state ≡ to_state
  unfolding set_values
  set_values-state row = ground arith

-- What the gates read of a use case, once it is looked up in the table.
same_system :
    (db : Session) (f : UseCase → UseCase)
    → ((r : UseCase) → (f r).system_id ≡ r.system_id)
    → (o : Option UseCase) → system_of db (Option.map f o) ≡ system_of db o
same_system db f keep none = refl
same_system db f keep (some r) = rw keep

same_categories :
    (db : Session) (f : UseCase → UseCase)
    → ((r : UseCase) → (f r).id ≡ r.id)
    → (o : Option UseCase) → categories_of db (Option.map f o) ≡ categories_of db o
same_categories db f keep none = refl
same_categories db f keep (some r) = rw keep

pub if_keeps {ℓ} :
    {A : Type ℓ} (g : UseCase → A) (p : UseCase → Bool) (f : UseCase → UseCase)
    → ((r : UseCase) → g (f r) ≡ g r)
    → (r : UseCase) → g (if p r then f r else r) ≡ g r
if_keeps g p f keep r = elim (Bool-cases (p r)) [ inl e ↦ rw e (keep r) | inr e ↦ rw e ]

-- Every gate has, after a transition, the verdict that it had before.
pub commit_transition-SameReads :
    (u : UseCase) (e : Event) (t : LifecycleState) (actor : ℕ) (reason held : Option Message)
    (db : Session)
    → SameReads u (set_values u.state e t held u) db (commit_transition u e t actor reason held db)
unfolding commit_transition
commit_transition-SameReads u e t actor reason held db = record {
  authorisations = refl;
  facts = record {
    id = set_values-id u.state e t held u;
    tenant_id = set_values-tenant_id u.state e t held u;
    system_id = set_values-system_id u.state e t held u;
    eu_tier = set_values-eu_tier u.state e t held u;
    now = refl;
    systems = refl;
    vendor_approvals = refl;
    product_approvals = refl;
    operator_roles = refl;
    classifications = refl;
    assessments = refl;
    items = refl;
    item_controls = refl;
    systems_of = λ i. rw (find?-update_rows (row_matches u) f keep_id i db.use_cases) (
        same_system db _
          (if_keeps (λ r. r.system_id) (row_matches u) f (set_values-system_id u.state e t held))
          _);
    categories = λ i.
        rw (find?-update_rows (row_matches u) f keep_id i db.use_cases)
          (same_categories db _ (if_keeps (λ r. r.id) (row_matches u) f keep_id) _);
  };
}
  where
    f : UseCase → UseCase
    f = set_values u.state e t held

    keep_id : (r : UseCase) → (f r).id ≡ r.id
    keep_id = set_values-id u.state e t held
