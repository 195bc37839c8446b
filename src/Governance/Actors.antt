-- ===== src/Governance/Actors.antt =====
-- What `assert_distinct_workflow_actor` accepts.
use aigov.Governance.{assert_distinct_workflow_actor, same_person}
use aigov.Prelude.{
  All, Bool, Error, List, Option, Result, String, [], any_row, ap, arith, err, false, holds,
  if◌then◌else◌, nat_eq, none, ok, refl, some, some_eq, true, ℕ, ◌==◌, ◌↔◌, ◌∷◌, ◌≡◌, ◌≢◌,
}

ne_of : (a b : ℕ) → (a == b) ≡ false → a ≢ b
ne_of a b h e = ground arith

beq_of : (a b : ℕ) → a ≢ b → (a == b) ≡ false
beq_of a b h = ground arith

holds-ne : (o : Option ℕ) (actor : ℕ) → (holds o actor ≡ false) ↔ (o ≢ some actor)
holds-ne none actor = (λ h e. cc, λ h. refl)
holds-ne (some a) actor =
    (λ h e. ne_of a actor h (some_eq e), λ h. beq_of a actor (λ e. h (ap some e)))

nobody :
    (actor : ℕ) (excluded : List (Option ℕ))
    → (any_row (λ o. holds o actor) excluded ≡ false) ↔ All (λ o. o ≢ some actor) excluded
nobody actor [] = (λ h. tt, λ h. refl)
nobody actor (o ∷ rest) = (
  λ h. ((holds-ne o actor).0 (ground arith), (nobody actor rest).0 (ground arith)),
  λ h. rw ((holds-ne o actor).1 h.0, (nobody actor rest).1 h.1),
)

passes_if :
    (b : Bool) (e : Error)
    → (◌≡◌ {A = Result (Unit {0})} (if b then err e else ok tt) (ok tt)) ↔ (b ≡ false)
passes_if true e = (λ h. cc, λ h. cc)
passes_if false e = (λ h. refl, λ h. refl)

-- An actor passes exactly when the excluded people, of whom some may not be known yet, do not
-- include them.
pub assert_distinct_workflow_actor-ok_iff :
    (actor : ℕ) (excluded : List (Option ℕ)) (action : String)
    → (assert_distinct_workflow_actor actor excluded action ≡ ok tt)
      ↔ All (λ o. o ≢ some actor) excluded
unfolding assert_distinct_workflow_actor
assert_distinct_workflow_actor-ok_iff actor excluded action =
    let test = passes_if (any_row (λ o. holds o actor) excluded) (same_person action) in
    (λ h. (nobody actor excluded).0 (test.0 h), λ h. test.1 ((nobody actor excluded).1 h))
