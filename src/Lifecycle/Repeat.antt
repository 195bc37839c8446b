-- ===== src/Lifecycle/Repeat.antt =====
-- Re-evaluations of a use case, one after another.
use aigov.Gates.Frame.{
  SameReads, SameReads-trans, assessment_gate-same, authorisation_gate-same,
  classification_readiness-same, product_gate-same, treatment_gate-same, vendor_gate-same,
}
use aigov.Lifecycle.Advance.{must_halt}
use aigov.Lifecycle.Arrival.{Succeeds}
use aigov.Lifecycle.Fixpoint.{is_positional, positional_facts, re_evaluate-settled}
use aigov.Lifecycle.Legality.{is_terminal}
use aigov.Lifecycle.Outcomes.{
  IsSettled, none_of, not_before, positional_live, positional_reachable, settled-reachable,
  settled_again, settled_behind, settled_from_held, settled_once,
}
use aigov.Lifecycle.ReEvaluate.{full_vector, re_evaluate, target_from_vector}
use aigov.Lifecycle.Resting.{IsFresh}
use aigov.Lifecycle.Settling.{
  is_reachable, settled, settled_state, target-place_bound, target-rank, target_positional,
}
use aigov.Lifecycle.Target.{place, target}
use aigov.Model.Enums.Lifecycle.{LifecycleState, lifecycle_state_eq}
use aigov.Model.Rows.Domain.{UseCase}
use aigov.Model.Session.{Session}
use aigov.Prelude.{
  Exec, ap, arith, false, inl, inr, is_some, ok, true, ℕ, ◌<◌, ◌==◌, ◌>>=◌, ◌∙◌, ◌≡◌,
}

module _ {u v : UseCase} {db db' : Session} (same : SameReads u v db db') where
  pub full_vector-same : full_vector v db' ≡ full_vector u db
  unfolding full_vector
  full_vector-same = rw (
    vendor_gate-same same.facts,
    product_gate-same same.facts,
    classification_readiness-same same.facts,
    assessment_gate-same same.facts,
    treatment_gate-same same.facts,
    authorisation_gate-same same,
  )

  pub target-same : target v db' ≡ target u db
  target-same = rw full_vector-same

  pub must_halt-same : must_halt v db' ≡ must_halt u db
  must_halt-same = rw (classification_readiness-same same.facts)

  settled_state-same :
      settled_state v db'
      ≡ settled v.state (must_halt u db) (target u db).0 (is_some (target u db).1)
  settled_state-same = rw (must_halt-same, target-same)

target-is_positional : (u : UseCase) (db : Session) → is_positional (target u db).0 ≡ true
unfolding full_vector target_from_vector
target-is_positional u db = ground arith

-- A use case in its settled state is returned as it is, and nothing is written.
pub re_evaluate-of_IsSettled :
    (u : UseCase) (actor : ℕ) (db : Session)
    → IsSettled (must_halt u db) (target u db).0 (is_some (target u db).1) u.state
    → re_evaluate u actor db ≡ (ok u, db)
re_evaluate-of_IsSettled u actor db (inl e) = unfold re_evaluate in rw e
re_evaluate-of_IsSettled u actor db (inr (inl (c, e))) =
    let p : is_positional u.state ≡ true = ap is_positional e ∙ target-is_positional u db in
    let (not_held, not_authorised, r, _) = positional_facts u.state p in
    let (no_advance, no_hold) = not_before (place u.state) (place (target u db).0) (ap place e) in
    unfold re_evaluate in
    rw (
      positional_live u.state p,
      c,
      not_held,
      not_authorised,
      r,
      target-rank u db,
      no_advance,
      no_hold,
    )
re_evaluate-of_IsSettled u actor db (inr (inr (c, e, f))) =
    let alive : is_terminal u.state ≡ false = ap is_terminal e in
    let not_held : (u.state == LifecycleState.held) ≡ false =
      ap (λ x. x == LifecycleState.held) e in
    let at_authorised : (u.state == LifecycleState.authorised) ≡ true =
      ap (λ x. x == LifecycleState.authorised) e in
    unfold re_evaluate in rw (alive, c, not_held, at_authorised, none_of f)

settled_state_twice :
    {u v w : UseCase} (a : Session) {b c : Session}
    → SameReads u v a b
    → SameReads u w a c
    → v.state ≡ settled_state u a
    → w.state ≡ settled_state v b
    → IsSettled (must_halt w c) (target w c).0 (is_some (target w c).1) w.state
settled_state_twice {u} a ab ac e f =
    rw (must_halt-same ac, target-same ac, f ∙ settled_state-same ab, e)
      (settled_again (target_positional u a) (target-place_bound u a)
        (settled_once u.state (must_halt u a) (target u a).0 (is_some (target u a).1)))

-- Two calls in a row, each on what the one before returned.
pub re_evaluate_twice : UseCase → ℕ → Exec Session UseCase
re_evaluate_twice use_case actor = do once ← re_evaluate use_case actor; re_evaluate once actor

-- For a use case in any state but DEPLOYED and RETIRED, whose row has not moved since it was read,
-- two calls in a row return, and a third one by the same actor finds everything in its place: it
-- returns the use case as it is and leaves the session alone.
pub re_evaluate_twice-settles :
    (u : UseCase) (actor : ℕ) (db : Session)
    → IsFresh u db
    → is_reachable u.state ≡ true
    → Succeeds (re_evaluate_twice u actor) db (λ v db'. re_evaluate v actor db' ≡ (ok v, db'))
unfolding re_evaluate_twice
re_evaluate_twice-settles u actor db fresh reachable =
    let once = re_evaluate-settled u actor db fresh reachable in
    let m = once.holds_after in
    let reachable' : is_reachable once.result.state ≡ true =
      ap is_reachable m.state
      ∙ settled-reachable u.state (must_halt u db) (target u db).0 (is_some (target u db).1)
          (target_positional u db) reachable in
    let twice = re_evaluate-settled once.result actor once.after m.fresh reachable' in
    let n = twice.holds_after in
    let same = SameReads-trans m.same n.same in
    record {
      result = twice.result;
      after = twice.after;
      returns = rw once.returns twice.returns;
      holds_after =
          re_evaluate-of_IsSettled twice.result actor twice.after
            (settled_state_twice db m.same same m.state n.state);
    }

-- A use case in a state from REQUESTED to PENDING_AUTHORISATION, whose row has not moved since it
-- was read, that has no prohibited snapshot and lies beyond the target of the gate vector, is in
-- HELD after a first call; a second call, with nothing changed in between, takes it out of HELD
-- and puts it at that target.
pub re_evaluate-regress_and_restore :
    (u : UseCase) (actor : ℕ) (db : Session)
    → IsFresh u db
    → is_positional u.state ≡ true
    → must_halt u db ≡ false
    → place (target u db).0 < place u.state
    → Succeeds (re_evaluate u actor) db (λ v db'.
      (v.state ≡ LifecycleState.held)
      × Succeeds (re_evaluate v actor) db' (λ w db''. w.state ≡ (target u db).0))
re_evaluate-regress_and_restore u actor db fresh p clear behind =
    let once = re_evaluate-settled u actor db fresh (positional_reachable u.state p) in
    let m = once.holds_after in
    let at_held : once.result.state ≡ LifecycleState.held =
      m.state
      ∙ settled_behind u.state (must_halt u db) (target u db).0 (is_some (target u db).1) p clear
          behind in
    let twice = re_evaluate-settled once.result actor once.after m.fresh (rw at_held) in
    record {
      result = once.result;
      after = once.after;
      returns = once.returns;
      holds_after = (
        at_held,
        record {
          result = twice.result;
          after = twice.after;
          returns = twice.returns;
          holds_after =
              twice.holds_after.state
              ∙ settled_state-same m.same
              ∙ settled_from_held once.result.state (must_halt u db) (target u db).0
                  (is_some (target u db).1) at_held clear;
        },
      );
    }
