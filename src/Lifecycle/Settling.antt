-- ===== src/Lifecycle/Settling.antt =====
-- Where `re_evaluate` puts a use case, in one step and in repetition.
use aigov.Gates.Frame.{SameReads-refl}
use aigov.Gates.Verdict.{GateResult}
use aigov.Lifecycle.Advance.{advance_use_case, must_halt}
use aigov.Lifecycle.Arrival.{Moved, Succeeds, advance_use_case-target, apply_transition-Moved}
use aigov.Lifecycle.Legality.{Event, is_advanced, is_legal}
use aigov.Lifecycle.ReEvaluate.{
  full_vector, hold_use_case, move_by_rank, rank, re_evaluate, reason_or, recheck_authorised,
  target_from_vector,
}
use aigov.Lifecycle.Resting.{IsFresh}
use aigov.Lifecycle.Target.{place, target}
use aigov.Lifecycle.Transition.{apply_transition}
use aigov.Model.Enums.Lifecycle.{LifecycleState}
use aigov.Model.Rows.Domain.{UseCase}
use aigov.Model.Session.{Session}
use aigov.Prelude.{
  Bool, Bool-cases, Exec, Message, Option, [], arith, false, if◌then◌else◌, inl, inr, is_some, leb,
  lit, ltb, none, refl, some, true, ℕ, ◌<◌, ◌∙◌, ◌∷◌, ◌≡◌, ◌≤◌,
}

-- The state that a re-evaluation leads to, from the state, the prohibition, and the target and
-- blocker of the gate vector: no walk, no transition, no session.
unfoldable pub settled : LifecycleState → Bool → LifecycleState → Bool → LifecycleState
settled LifecycleState.halted_prohibited prohibited target blocked =
    LifecycleState.halted_prohibited
settled s true target blocked = LifecycleState.halted_prohibited
settled LifecycleState.held false target blocked = target
settled LifecycleState.authorised false target blocked =
    if blocked then LifecycleState.held else LifecycleState.authorised
settled s false target blocked =
    if leb (place s) (place target) then target else LifecycleState.held

-- The states that a use case can be in: DEPLOYED and RETIRED have no rank, and nothing enters them.
abbrev pub is_reachable : LifecycleState → Bool
is_reachable LifecycleState.deployed = false
is_reachable LifecycleState.retired = false
is_reachable s = true

abbrev pub settled_state : UseCase → Session → LifecycleState
settled_state u db = settled u.state (must_halt u db) (target u db).0 (is_some (target u db).1)

pub target_positional : (u : UseCase) (db : Session) → is_advanced (target u db).0 ≡ true
unfolding full_vector target_from_vector
target_positional u db = ground arith

pub target-rank : (u : UseCase) (db : Session) → rank (target u db).0 ≡ some (place (target u db).0)
unfolding full_vector target_from_vector
target-rank u db = ground arith

pub target-place_bound : (u : UseCase) (db : Session) → place (target u db).0 ≤ 6
unfolding full_vector target_from_vector
target-place_bound u db = ground arith

abbrev Settles : UseCase → ℕ → Session → LifecycleState → Type 0
Settles u actor db s = Succeeds (re_evaluate u actor) db (Moved u db s)

pub stays : (u : UseCase) (db : Session) → IsFresh u db → Moved u db u.state u db
stays u db fresh = record { state = refl; fresh = fresh; same = SameReads-refl u db }

restore-legal :
    (s t : LifecycleState)
    → s ≡ LifecycleState.held
    → is_advanced t ≡ true
    → is_legal s Event.restore t ≡ true
unfolding is_legal
restore-legal s t e a = rw e a

hold-legal :
    (s : LifecycleState) → is_advanced s ≡ true → is_legal s Event.hold LifecycleState.held ≡ true
unfolding is_legal
hold-legal s a = a

-- An action known to be another one succeeds as that does.
pub Succeeds-of_eq :
    {A : Type 0} {m m' : Exec Session A} {db : Session} {P Q : A → Session → Type 0}
    → m db ≡ m' db
    → ((v : A) (db' : Session) → P v db' → Q v db')
    → Succeeds m' db P
    → Succeeds m db Q
Succeeds-of_eq e f s = record {
  result = s.result;
  after = s.after;
  returns = e ∙ s.returns;
  holds_after = f s.result s.after s.holds_after;
}

lt_leb : (a b : ℕ) → ltb a b ≡ true → leb a b ≡ true
lt_leb a b h = ground arith

gt_leb : (a b : ℕ) → ltb b a ≡ true → leb a b ≡ false
gt_leb a b h = ground arith

same_place : (a b : ℕ) → ltb a b ≡ false → ltb b a ≡ false → (a ≡ b) × (leb a b ≡ true)
same_place a b h k = ground arith

pub Moved-at :
    {u v : UseCase} {db db' : Session} {s t : LifecycleState}
    → s ≡ t
    → Moved u db s v db'
    → Moved u db t v db'
Moved-at e h = record { state = h.state ∙ e; fresh = h.fresh; same = h.same }

place-injective : (s t : LifecycleState) → place t ≤ 6 → place s ≡ place t → s ≡ t
place-injective LifecycleState.requested t le e = ground arith
place-injective s t le e = ground arith

module _ (u : UseCase) (actor : ℕ) (db : Session) (fresh : IsFresh u db) where
  pub restored :
      u.state ≡ LifecycleState.held
      → (reason : Option Message)
      → Succeeds
          (apply_transition u Event.restore (target u db).0 actor reason none)
          db
          (Moved u db (target u db).0)
  restored at_held reason =
      apply_transition-Moved u Event.restore (target u db).0 actor reason none db
        (restore-legal u.state (target u db).0 at_held (target_positional u db)) fresh

  held_back :
      is_advanced u.state ≡ true
      → (reason : Message)
      → Succeeds (hold_use_case u actor reason) db (Moved u db LifecycleState.held)
  unfolding hold_use_case
  held_back advanced reason =
      apply_transition-Moved u Event.hold LifecycleState.held actor (some reason) (some reason) db
        (hold-legal u.state advanced) fresh

  pub rechecked :
      u.state ≡ LifecycleState.authorised
      → (o : Option GateResult)
      → Succeeds
          (recheck_authorised u actor o)
          db
          (Moved u db (if is_some o then LifecycleState.held else LifecycleState.authorised))
  unfolding recheck_authorised
  rechecked e none = record {
    result = u;
    after = db;
    returns = refl;
    holds_after = record { state = e; fresh = fresh; same = SameReads-refl u db };
  }
  rechecked e (some g) = held_back (rw e) g.reason

  abbrev pub by_place : LifecycleState
  by_place =
      if leb (place u.state) (place (target u db).0) then (target u db).0 else LifecycleState.held

  ahead : ltb (place u.state) (place (target u db).0) ≡ true → (target u db).0 ≡ by_place
  ahead h = rw (lt_leb (place u.state) (place (target u db).0) h)

  level :
      ltb (place u.state) (place (target u db).0) ≡ false
      → ltb (place (target u db).0) (place u.state) ≡ false
      → u.state ≡ by_place
  level h k =
      let (e, le) = same_place (place u.state) (place (target u db).0) h k in
      rw le (place-injective u.state (target u db).0 (target-place_bound u db) e)

  behind : ltb (place (target u db).0) (place u.state) ≡ true → LifecycleState.held ≡ by_place
  behind h = rw (gt_leb (place u.state) (place (target u db).0) h)

  -- The comparison of ranks, for a state on the way to the ceiling.
  pub ranked :
      must_halt u db ≡ false
      → rank u.state ≡ some (place u.state)
      → (0 < place u.state → is_advanced u.state ≡ true)
      → Succeeds (move_by_rank u actor (target u db)) db (Moved u db by_place)
  ranked clear r advanced = elim (Bool-cases (ltb (place u.state) (place (target u db).0))) [
    | inl fwd ↦
        Succeeds-of_eq {m' = advance_use_case u actor}
          (unfold move_by_rank in rw (r, target-rank u db, fwd)) (λ v db' h. Moved-at (ahead fwd) h)
          (advance_use_case-target u actor db fresh clear (ground arith))
    | inr not_fwd ↦ elim (Bool-cases (ltb (place (target u db).0) (place u.state))) [
      | inl back ↦
          Succeeds-of_eq
            {m' = hold_use_case u actor
              (reason_or (target u db).1 (lit "An upstream gate is no longer satisfied" ∷ []))}
            (unfold move_by_rank in rw (r, target-rank u db, not_fwd, back))
            (λ v db' h. Moved-at (behind back) h)
            (held_back (advanced (ground arith))
              (reason_or (target u db).1 (lit "An upstream gate is no longer satisfied" ∷ [])))
      | inr not_back ↦ record {
        result = u;
        after = db;
        returns = unfold move_by_rank in rw (r, target-rank u db, not_fwd, not_back);
        holds_after = Moved-at (level not_fwd not_back) (stays u db fresh);
      }
    ]
  ]
