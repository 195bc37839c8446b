-- ===== src/Lifecycle/Arrival.antt =====
-- What `advance_use_case` does to a use case whose row has not moved since it was read.
use aigov.Gates.Frame.{SameReads}
use aigov.Gates.Readiness.{classification_readiness}
use aigov.Lifecycle.Advance.{
  advance_fuel, advance_use_case, gate_for_state, halt_use_case, must_halt,
}
use aigov.Lifecycle.Frame.{commit_transition-SameReads, set_values-state}
use aigov.Lifecycle.Legality.{Event, is_legal, is_terminal}
use aigov.Lifecycle.Resting.{
  IsFresh, Rests, advance_loop-Rests, apply_transition-of_legal, commit_transition-IsFresh,
  hops_left, passes,
}
use aigov.Lifecycle.Target.{Walk-first_shut, place, target, target-first_shut}
use aigov.Lifecycle.Transition.{apply_transition, commit_transition, set_values}
use aigov.Model.Enums.Lifecycle.{LifecycleState}
use aigov.Model.Rows.Domain.{UseCase}
use aigov.Model.Session.{Session}
use aigov.Prelude.{
  Exec, Message, Option, arith, false, none, not, ok, refl, some, sym, true, ℕ, ◌<◌, ◌∙◌, ◌≡◌, ◌≤◌,
}
use mathlib.Core.Bool.{and-false}

-- An action that returns, with what holds of its result and of the session after it.
pub record Succeeds {A : Type 0} (m : Exec Session A) (db : Session) (P : A → Session → Type 0)
    : Type 0 where
  pub result : A
  pub after : Session
  pub returns : m db ≡ (ok result, after)
  pub holds_after : P result after

hops_bound : (s : LifecycleState) → hops_left s < advance_fuel
hops_bound LifecycleState.requested = omega arith
hops_bound s = omega arith

requested-open : (u : UseCase) (db : Session) → passes u db LifecycleState.requested ≡ true
unfolding gate_for_state
requested-open u db = refl

-- For a use case whose row has not moved since it was read and that has no prohibited snapshot, an
-- advance returns: it has walked along forward edges through open gates, and rests in a state
-- whose gate is shut or that has none.
pub advance_use_case-Rests :
    (u : UseCase) (actor : ℕ) (db : Session)
    → IsFresh u db
    → must_halt u db ≡ false
    → Succeeds (advance_use_case u actor) db (Rests u db)
unfolding advance_use_case
advance_use_case-Rests u actor db fresh clear =
    let (v, db', looped, rests) =
      advance_loop-Rests advance_fuel u actor db (hops_bound u.state) fresh in
    record {
      result = v;
      after = db';
      returns = rw (clear, and-false (not (is_terminal u.state))) looped;
      holds_after = rests;
    }

-- The state and the reads after a move.
pub record Moved (u : UseCase) (db : Session) (t : LifecycleState) (v : UseCase) (db' : Session)
    : Type 0 where
  pub state : v.state ≡ t
  pub fresh : IsFresh v db'
  pub same : SameReads u v db db'

pub apply_transition-Moved :
    (u : UseCase) (e : Event) (t : LifecycleState) (actor : ℕ) (reason held : Option Message)
    (db : Session)
    → is_legal u.state e t ≡ true
    → IsFresh u db
    → Succeeds (apply_transition u e t actor reason held) db (Moved u db t)
apply_transition-Moved u e t actor reason held db legal fresh = record {
  result = set_values u.state e t held u;
  after = commit_transition u e t actor reason held db;
  returns = apply_transition-of_legal u e t actor reason held db legal fresh;
  holds_after = record {
    state = set_values-state u.state e t held u;
    fresh = commit_transition-IsFresh u e t actor reason held db fresh;
    same = commit_transition-SameReads u e t actor reason held db;
  };
}

halt-legal :
    (s : LifecycleState)
    → is_terminal s ≡ false
    → is_legal s Event.halt LifecycleState.halted_prohibited ≡ true
unfolding is_legal
halt-legal s h = rw h

pub halt_use_case-Moved :
    (u : UseCase) (actor : ℕ) (reason : Message) (db : Session)
    → is_terminal u.state ≡ false
    → IsFresh u db
    → Succeeds (halt_use_case u actor reason) db (Moved u db LifecycleState.halted_prohibited)
unfolding halt_use_case
halt_use_case-Moved u actor reason db live fresh =
    apply_transition-Moved u Event.halt LifecycleState.halted_prohibited actor (some reason) none db
      (halt-legal u.state live) fresh

-- For a use case whose row has not moved since it was read, a prohibited snapshot makes an advance
-- return with the use case halted, from every state but the halted one, HELD included.
pub advance_use_case-halts :
    (u : UseCase) (actor : ℕ) (db : Session)
    → IsFresh u db
    → must_halt u db ≡ true
    → is_terminal u.state ≡ false
    → Succeeds (advance_use_case u actor) db (Moved u db LifecycleState.halted_prohibited)
unfolding advance_use_case
advance_use_case-halts u actor db fresh prohibited live =
    let done = halt_use_case-Moved u actor (classification_readiness u db).reason db live fresh in
    record {
      result = done.result;
      after = done.after;
      returns = rw (live, prohibited) done.returns;
      holds_after = done.holds_after;
    }

-- For a use case whose row has not moved since it was read, that has no prohibited snapshot and is
-- no further than the target of the gate vector, an advance returns, with the use case at that
-- target: hop by hop it comes to where a full recomputation says that it belongs.
pub advance_use_case-target :
    (u : UseCase) (actor : ℕ) (db : Session)
    → IsFresh u db
    → must_halt u db ≡ false
    → place u.state ≤ place (target u db).0
    → Succeeds (advance_use_case u actor) db (Moved u db (target u db).0)
advance_use_case-target u actor db fresh clear le =
    let done = advance_use_case-Rests u actor db fresh clear in
    let rests = done.holds_after in
    let e = target-first_shut u db in
    record {
      result = done.result;
      after = done.after;
      returns = done.returns;
      holds_after = record {
        state =
            Walk-first_shut (passes u db) (requested-open u db) rests.walk (rw e at le)
              rests.blocked
            ∙ sym e;
        fresh = rests.fresh;
        same = rests.same;
      };
    }
