-- ===== src/Governance/Conflicts.antt =====
-- What `assert_governance_assignable` accepts, over a conflict table in canonical order.
use aigov.Governance.{
  assert_governance_assignable, check_conflicts, check_pair, conflict_error, find_conflict,
  held_role_ids, hi_of, lo_of, self_assignment,
}
use aigov.Model.Rows.Lifecycle.{GovernanceRoleConflict}
use aigov.Model.Session.{Session}
use aigov.Prelude.{
  All, Bool, Bool-cases, List, Option, Result, [], any_row, arith, err, false, inl, inr, is_some,
  nat_eq, none, ok, refl, some, sym, true, ℕ, ◌&&◌, ◌<◌, ◌==◌, ◌||◌, ◌↔◌, ◌∙◌, ◌∷◌, ◌≡◌, ◌≢◌,
}

-- The table's CHECK constraint: `role_a_id < role_b_id`.
abbrev pub IsCanonical : List GovernanceRoleConflict → Type 0
IsCanonical = All (λ row. row.role_a_id < row.role_b_id)

-- The matrix has the pair, in either order.
abbrev pub in_conflict : List GovernanceRoleConflict → ℕ → ℕ → Bool
in_conflict rows a b =
    any_row
      (λ row.
        (row.role_a_id == a && row.role_b_id == b) || (row.role_a_id == b && row.role_b_id == a))
      rows

-- The look-up of the ordered pair misses exactly where the matrix has it in neither order.
find_conflict-in_conflict :
    (a b : ℕ) (rows : List GovernanceRoleConflict)
    → IsCanonical rows
    → is_some (find_conflict (lo_of a b) (hi_of a b) rows) ≡ in_conflict rows a b
find_conflict-in_conflict a b [] h = refl
find_conflict-in_conflict a b (row ∷ rows) h =
    ground (arith, find_conflict-in_conflict a b rows h.1)

conflict_error-fails :
    (db : Session) (held candidate : ℕ) → conflict_error db held candidate ≢ ok tt
unfolding conflict_error
conflict_error-fails db held candidate h = ground arith

abbrev pub NoConflict : Session → ℕ → List ℕ → Type 0
NoConflict db candidate = All (λ held. in_conflict db.role_conflicts held candidate ≡ false)

check_pair-ok :
    (db : Session) (held candidate : ℕ) (o : Option GovernanceRoleConflict)
    (rest : Result (Unit {0}))
    → check_pair db held candidate o rest ≡ ok tt
    → (is_some o ≡ false) × (rest ≡ ok tt)
check_pair-ok db held candidate none rest h = (refl, h)
check_pair-ok db held candidate (some row) rest h =
    absurd (conflict_error-fails db held candidate h)

check_conflicts-ok :
    (db : Session) (candidate : ℕ) (ids : List ℕ)
    → IsCanonical db.role_conflicts
    → check_conflicts db candidate ids ≡ ok tt
    → NoConflict db candidate ids
unfolding check_conflicts
check_conflicts-ok db candidate [] c h = tt
check_conflicts-ok db candidate (held ∷ ids) c h =
    let (missed, rest) =
      check_pair-ok db held candidate
        (find_conflict (lo_of held candidate) (hi_of held candidate) db.role_conflicts)
        (check_conflicts db candidate ids) h in
    (
      sym (find_conflict-in_conflict held candidate db.role_conflicts c) ∙ missed,
      check_conflicts-ok db candidate ids c rest,
    )

missed_lookup : {o : Option GovernanceRoleConflict} → is_some o ≡ false → o ≡ none
missed_lookup h = ground arith

ok-check_conflicts :
    (db : Session) (candidate : ℕ) (ids : List ℕ)
    → IsCanonical db.role_conflicts
    → NoConflict db candidate ids
    → check_conflicts db candidate ids ≡ ok tt
unfolding check_conflicts
ok-check_conflicts db candidate [] c h = refl
ok-check_conflicts db candidate (held ∷ ids) c h =
    rw (missed_lookup (find_conflict-in_conflict held candidate db.role_conflicts c ∙ h.0))
      (ok-check_conflicts db candidate ids c h.1)

self_fails :
    (acting subject candidate : ℕ) (db : Session)
    → (acting == subject) ≡ true
    → assert_governance_assignable acting subject candidate db ≢ ok tt
unfolding assert_governance_assignable
self_fails acting subject candidate db same h =
    let e : ◌≡◌ {A = Result (Unit {0})} (err self_assignment) (ok tt) = rw same at h in cc

-- With the conflict table in its canonical order, an assignment passes exactly when nobody assigns
-- to their own membership and no role that the subject holds stands in the conflict matrix with
-- the candidate, in either order.
pub assert_governance_assignable-ok_iff :
    (acting subject candidate : ℕ) (db : Session)
    → IsCanonical db.role_conflicts
    → (assert_governance_assignable acting subject candidate db ≡ ok tt)
      ↔ ((acting ≢ subject) × NoConflict db candidate (held_role_ids db subject))
assert_governance_assignable-ok_iff acting subject candidate db c = (forward, backward)
  where
    forward :
        assert_governance_assignable acting subject candidate db ≡ ok tt
        → (acting ≢ subject) × NoConflict db candidate (held_role_ids db subject)
    forward h = elim (Bool-cases (acting == subject)) [
      | inl same ↦ absurd (self_fails acting subject candidate db same h)
      | inr other ↦ (
        λ e. cc ((nat_eq.beq_iff acting subject).1 e, other),
        check_conflicts-ok db candidate (held_role_ids db subject) c
            (unfold assert_governance_assignable in (rw other at h)),
      )
    ]

    backward :
        (acting ≢ subject) × NoConflict db candidate (held_role_ids db subject)
        → assert_governance_assignable acting subject candidate db ≡ ok tt
    backward h = elim (Bool-cases (acting == subject)) [
      | inl same ↦ absurd (h.0 ((nat_eq.beq_iff acting subject).0 same))
      | inr other ↦
          unfold assert_governance_assignable in
          rw other (ok-check_conflicts db candidate (held_role_ids db subject) c h.1)
    ]
