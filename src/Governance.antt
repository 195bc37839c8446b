-- ===== src/Governance.antt =====
-- Separation of duties (app/services/governance.py).
pub mod Conflicts
pub mod Actors
use aigov.Model.Rows.Lifecycle.{Detail, GovernanceRole, GovernanceRoleConflict}
use aigov.Model.Session.{Session}
use aigov.Prelude.{
  Error, Exec, List, Option, Result, String, [], any_row, attribute_error, err, find?, holds, http,
  if◌then◌else◌, lit, ltb, map, nat_eq, none, ok, some, uid, where_rows, ℕ, ◌&&◌, ◌++◌, ◌+◌, ◌==◌,
  ◌∷◌,
}

-- `db.scalar(select(GovernanceRoleConflict)...)`: the conflict row of an ordered pair.
abbrev pub find_conflict : ℕ → ℕ → List GovernanceRoleConflict → Option GovernanceRoleConflict
find_conflict lo hi = find? (λ row. row.role_a_id == lo && row.role_b_id == hi)

-- The pair in the order in which the table stores it.
abbrev pub lo_of : ℕ → ℕ → ℕ
lo_of a b = if ltb b a then b else a

abbrev pub hi_of : ℕ → ℕ → ℕ
hi_of a b = if ltb a b then b else a

-- `role.key`, where `role` is what `db.get` found: None has no attribute `key`.
abbrev pub key_of : Option GovernanceRole → Result String
key_of none = err attribute_error
key_of (some role) = ok role.key

abbrev pub get_role : Session → ℕ → Option GovernanceRole
get_role db id = find? (λ row. row.id == id) db.governance_roles

abbrev pub bind_result {ℓ κ} : {A : Type ℓ} {B : Type κ} → Result A → (A → Result B) → Result B
bind_result (ok a) f = f a
bind_result (err e) f = err e

-- The raise of a conflict, whose message reads both roles, the candidate's first.
unfoldable pub conflict_error : Session → ℕ → ℕ → Result (Unit {0})
conflict_error db held_id candidate_id =
    bind_result (key_of (get_role db candidate_id)) (λ candidate.
      bind_result (key_of (get_role db held_id)) (λ held. err (
        http 409 (
          lit "Separation of duties conflict: '"
          ∷ lit candidate
          ∷ lit "' conflicts with held role '"
          ∷ lit held
          ∷ lit "'"
          ∷ []))))

-- The body of the loop over the roles that the subject holds.
abbrev pub check_pair :
    Session → ℕ → ℕ → Option GovernanceRoleConflict → Result (Unit {0}) → Result (Unit {0})
check_pair db held_id candidate_id none rest = rest
check_pair db held_id candidate_id (some _) rest = conflict_error db held_id candidate_id

unfoldable pub check_conflicts : Session → ℕ → List ℕ → Result (Unit {0})
unfolding conflict_error
check_conflicts db candidate_id [] = ok tt
check_conflicts db candidate_id (held_id ∷ rest) =
    check_pair db held_id candidate_id
      (find_conflict (lo_of held_id candidate_id) (hi_of held_id candidate_id) db.role_conflicts)
      (check_conflicts db candidate_id rest)

-- The roles that a membership holds.
abbrev pub held_role_ids : Session → ℕ → List ℕ
held_role_ids db membership_id =
    map (λ row. row.governance_role_id)
      (where_rows (λ row. row.membership_id == membership_id) db.role_assignments)

abbrev pub self_assignment : Error
self_assignment = http 403 (lit "Cannot assign governance roles to your own membership" ∷ [])

-- A subject that holds no role passes: the loop over no roles is the early return.
unfoldable pub assert_governance_assignable : ℕ → ℕ → ℕ → Session → Result (Unit {0})
unfolding check_conflicts
assert_governance_assignable acting_membership_id subject_membership_id governance_role_id db =
    if acting_membership_id == subject_membership_id
    then err self_assignment
    else check_conflicts db governance_role_id (held_role_ids db subject_membership_id)

abbrev pub same_person : String → Error
same_person action = http 409 (
    lit "Separation of duties: the same person cannot both submit and "
    ∷ lit action
    ∷ lit " this assessment"
    ∷ [])

-- None entries of the excluded set match nobody.
unfoldable pub assert_distinct_workflow_actor : ℕ → List (Option ℕ) → String → Result (Unit {0})
assert_distinct_workflow_actor actor_user_id excluded_user_ids action =
    if any_row (λ excluded. holds excluded actor_user_id) excluded_user_ids
    then err (same_person action)
    else ok tt

-- The audit row of a grant or a revoke.
unfoldable pub record_governance_event : ℕ → ℕ → String → ℕ → ℕ → String → Exec Session (Unit {0})
record_governance_event tenant_id actor_user_id action assignment_id subject_membership_id key db =
    (
      ok tt,
      record db {
        audit_events =
            db.audit_events
            ++ record {
              id = db.uuids db.drawn;
              tenant_id = tenant_id;
              actor_user_id = actor_user_id;
              action = action;
              entity_type = "governance_role_assignment";
              entity_id = assignment_id;
              detail =
                  ("subject_membership_id", Detail.message (uid subject_membership_id ∷ []))
                  ∷ ("governance_role_key", Detail.text key)
                  ∷ [];
            }
              ∷ [];
        drawn = db.drawn + 1;
      },
    )
