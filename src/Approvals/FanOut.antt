-- ===== src/Approvals/FanOut.antt =====
-- The re-evaluations that follow a clearance, one transaction for each use case
-- (app/services/lifecycle_service.py).
use aigov.Approvals.{commit_or_rollback, fan_out, worker}
use aigov.Authorisation.Ready.{find?-fresh}
use aigov.Lifecycle.Arrival.{Moved, Succeeds}
use aigov.Lifecycle.Fixpoint.{re_evaluate-settled}
use aigov.Lifecycle.Frame.{set_values-state}
use aigov.Lifecycle.Kept.{re_evaluate-Keeps}
use aigov.Lifecycle.Legality.{Event, is_legal}
use aigov.Lifecycle.ReEvaluate.{re_evaluate}
use aigov.Lifecycle.Settling.{is_reachable, settled_state}
use aigov.Lifecycle.Transition.{apply_transition, commit_transition, row_matches, set_values}
use aigov.Model.Enums.Lifecycle.{LifecycleState}
use aigov.Model.Rows.Domain.{UseCase}
use aigov.Model.Session.{Session, get_use_case}
use aigov.Prelude.{
  All, All-find?, All-update_rows, Bool-cases, List, Message, Option, [], and_then, any_row, ap,
  arith, inl, inr, nat_eq, none, pure, refl, some, true, ℕ, ◌==◌, ◌∙◌, ◌∷◌, ◌≡◌,
}
use mathlib.Core.Path.{subst}

-- No use case is in a state that nothing enters.
abbrev pub AllReachable : Session → Type 0
AllReachable db = All (λ r. is_reachable r.state ≡ true) db.use_cases

legal_target :
    (s : LifecycleState) (e : Event) (t : LifecycleState)
    → is_legal s e t ≡ true
    → is_reachable t ≡ true
unfolding is_legal
legal_target s Event.created t h = ground arith
legal_target s Event.advance t h = ground arith
legal_target s Event.hold t h = ground arith
legal_target s Event.restore t h = ground arith
legal_target s Event.halt t h = ground arith
legal_target s Event.authorise t h = ground arith

apply_transition-AllReachable :
    (u : UseCase) (e : Event) (t : LifecycleState) (actor : ℕ) (reason held : Option Message)
    (db : Session)
    → AllReachable db
    → AllReachable (apply_transition u e t actor reason held db).1
unfolding apply_transition commit_transition
apply_transition-AllReachable u e t actor reason held db h =
    elim (Bool-cases (is_legal u.state e t)) [
      | inr illegal ↦ rw illegal h
      | inl legal ↦ elim (Bool-cases (any_row (row_matches u) db.use_cases)) [
        | inr stale ↦ rw (legal, stale) h
        | inl fresh ↦
            rw (legal, fresh)
              (All-update_rows (λ r. is_reachable r.state ≡ true) (λ r. is_reachable r.state ≡ true)
                (row_matches u) (set_values u.state e t held)
                (λ r _ _. rw (set_values-state u.state e t held r) (legal_target u.state e t legal))
                (λ r _ k. k) db.use_cases h)
      ]
    ]

re_evaluate-AllReachable :
    (u : UseCase) (actor : ℕ) (db : Session)
    → AllReachable db
    → AllReachable (re_evaluate u actor db).1
re_evaluate-AllReachable u actor =
    (re_evaluate-Keeps AllReachable
      (λ v e t a reason held _. record { at = apply_transition-AllReachable v e t a reason held }) u
      actor).at

-- The listed use cases one after another: one that is not there is passed over, and one that is
-- there is moved to the state that the specification computes for it at its turn.
pub data Worked : List ℕ → Session → Session → Type 0 where
  all_done : {db : Session} → Worked [] db db
  missing :
      {id : ℕ} {ids : List ℕ} {db db' : Session}
      → get_use_case db id ≡ none
      → Worked ids db db'
      → Worked (id ∷ ids) db db'
  settled_one :
      {id : ℕ} {ids : List ℕ} {db db1 db' : Session} {u v : UseCase}
      → get_use_case db id ≡ some u
      → Moved u db (settled_state u db) v db1
      → Worked ids db1 db'
      → Worked (id ∷ ids) db db'

-- Where no use case is in DEPLOYED or RETIRED, a fan-out raises nothing, for whatever ids it is
-- given: each use case among them is moved to the state that the specification of `re_evaluate`
-- computes from the session that the workers before it have left.
pub fan_out-Worked :
    (ids : List ℕ) (actor : ℕ) (db : Session)
    → AllReachable db
    → Succeeds (fan_out ids actor) db (λ _ db'. Worked ids db db')
unfolding fan_out
fan_out-Worked [] actor db h = record {
  result = tt;
  after = db;
  returns = refl;
  holds_after = all_done;
}
fan_out-Worked (id ∷ ids) actor db h = go (get_use_case db id) refl (fan_out-Worked ids actor)
  where
    go :
        (o : Option UseCase)
        → get_use_case db id ≡ o
        → ((db1 : Session)
            → AllReachable db1
            → Succeeds (fan_out ids actor) db1 (λ _ db'. Worked ids db1 db'))
        → Succeeds (fan_out (id ∷ ids) actor) db (λ _ db'. Worked (id ∷ ids) db db')
    go none e rest =
        let later = rest db h in
        record {
          result = later.result;
          after = later.after;
          returns =
              unfold fan_out in
              ap (λ o. commit_or_rollback db (worker o actor db) (fan_out ids actor)) e
              ∙ later.returns;
          holds_after = missing e later.holds_after;
        }
    go (some u) e rest =
        let fresh = find?-fresh (λ row. row.id == id) u db.use_cases e in
        let reachable =
          All-find? (λ (r : UseCase). is_reachable r.state ≡ true) (λ row. row.id == id)
            db.use_cases h e in
        let now = re_evaluate-settled u actor db fresh reachable in
        let still =
          subst (λ x. AllReachable x.1) now.returns (re_evaluate-AllReachable u actor db h) in
        let later = rest now.after still in
        record {
          result = later.result;
          after = later.after;
          returns =
              unfold fan_out in
              ap (λ o. commit_or_rollback db (worker o actor db) (fan_out ids actor)) e
              ∙ ap (λ x. commit_or_rollback db (and_then (λ _. pure tt) x) (fan_out ids actor))
                  now.returns
              ∙ later.returns;
          holds_after = settled_one e now.holds_after later.holds_after;
        }
