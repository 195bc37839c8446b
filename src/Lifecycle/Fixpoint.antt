-- ===== src/Lifecycle/Fixpoint.antt =====
-- `re_evaluate` against its specification.
use aigov.Gates.Readiness.{classification_readiness}
use aigov.Lifecycle.Advance.{halt_use_case, must_halt}
use aigov.Lifecycle.Arrival.{Moved, Succeeds, halt_use_case-Moved}
use aigov.Lifecycle.Legality.{Event, is_advanced, is_terminal}
use aigov.Lifecycle.ReEvaluate.{
  move_by_rank, move_to_target, rank, re_evaluate, reason_or, recheck_authorised,
}
use aigov.Lifecycle.Resting.{IsFresh}
use aigov.Lifecycle.Settling.{
  Moved-at, Succeeds-of_eq, is_reachable, ranked, rechecked, restored, settled, settled_state,
  stays,
}
use aigov.Lifecycle.Target.{place, target}
use aigov.Lifecycle.Transition.{apply_transition}
use aigov.Model.Enums.Lifecycle.{LifecycleState, lifecycle_state_eq}
use aigov.Model.Rows.Domain.{UseCase}
use aigov.Model.Session.{Session}
use aigov.Prelude.{
  Bool, Bool-cases, Message, Option, [], ap, arith, false, if◌then◌else◌, inl, inr, is_some, leb,
  lit, none, not, refl, some, true, ℕ, ◌&&◌, ◌<◌, ◌==◌, ◌∷◌, ◌≡◌,
}

abbrev pub is_positional : LifecycleState → Bool
is_positional LifecycleState.requested = true
is_positional s = is_advanced s && not (s == LifecycleState.authorised)

abbrev by_places : LifecycleState → LifecycleState → LifecycleState
by_places s t = if leb (place s) (place t) then t else LifecycleState.held

pub positional_facts :
    (s : LifecycleState)
    → is_positional s ≡ true
    → ((s == LifecycleState.held) ≡ false)
      × ((s == LifecycleState.authorised) ≡ false)
      × (rank s ≡ some (place s))
      × (0 < place s → is_advanced s ≡ true)
positional_facts LifecycleState.requested h = (refl, refl, refl, λ z. absurd (omega arith))
positional_facts LifecycleState.vendor_check h = (refl, refl, refl, λ z. refl)
positional_facts LifecycleState.product_check h = (refl, refl, refl, λ z. refl)
positional_facts LifecycleState.intake h = (refl, refl, refl, λ z. refl)
positional_facts LifecycleState.under_assessment h = (refl, refl, refl, λ z. refl)
positional_facts LifecycleState.treatment_pending h = (refl, refl, refl, λ z. refl)
positional_facts LifecycleState.pending_authorisation h = (refl, refl, refl, λ z. refl)
positional_facts s h = (cc, cc, cc, cc)

module _ (u : UseCase) (actor : ℕ) (db : Session) (fresh : IsFresh u db) where
  abbrev Lands : LifecycleState → Type 0
  Lands s = Succeeds (re_evaluate u actor) db (Moved u db s)

  -- A live use case is halted, or it moves towards the target.
  live :
      (s : LifecycleState)
      → is_terminal u.state ≡ false
      → (must_halt u db ≡ true → LifecycleState.halted_prohibited ≡ s)
      → (must_halt u db ≡ false → Succeeds (move_to_target u actor (target u db)) db (Moved u db s))
      → Lands s
  live s alive halted moved = elim (Bool-cases (must_halt u db)) [
    | inl prohibited ↦
        Succeeds-of_eq {m' = halt_use_case u actor (classification_readiness u db).reason}
          (unfold re_evaluate in rw (alive, prohibited)) (λ v db' h. Moved-at (halted prohibited) h)
          (halt_use_case-Moved u actor (classification_readiness u db).reason db alive fresh)
    | inr clear ↦
        Succeeds-of_eq {m' = move_to_target u actor (target u db)}
          (unfold re_evaluate in rw (alive, clear)) (λ v db' h. h) (moved clear)
  ]

  -- The rank comparison, for the states on the way to the ceiling.
  along :
      (s : LifecycleState)
      → u.state ≡ s
      → (u.state == LifecycleState.held) ≡ false
      → (u.state == LifecycleState.authorised) ≡ false
      → rank u.state ≡ some (place u.state)
      → (0 < place u.state → is_advanced u.state ≡ true)
      → must_halt u db ≡ false
      → Succeeds
          (move_to_target u actor (target u db))
          db
          (Moved u db (by_places s (target u db).0))
  along s e not_held not_authorised r advanced clear =
      Succeeds-of_eq {m' = move_by_rank u actor (target u db)}
        (unfold move_to_target in rw (not_held, not_authorised))
        (λ v db' h. Moved-at (ap (λ x. by_places x (target u db).0) e) h)
        (ranked u actor db fresh clear r advanced)

  positional :
      (s : LifecycleState)
      → u.state ≡ s
      → is_positional s ≡ true
      → must_halt u db ≡ false
      → Succeeds
          (move_to_target u actor (target u db))
          db
          (Moved u db (by_places s (target u db).0))
  positional s e p clear =
      let (a, b, c, d) = positional_facts u.state (rw e p) in along s e a b c d clear

  abbrev is : LifecycleState → Bool
  is s = u.state == s

  from_held :
      u.state ≡ LifecycleState.held
      → Succeeds (move_to_target u actor (target u db)) db (Moved u db (target u db).0)
  from_held e =
      let at_held : is LifecycleState.held ≡ true = ap (λ x. x == LifecycleState.held) e in
      let reason : Option Message =
        some (reason_or (target u db).1 (lit "All upstream gates satisfied" ∷ [])) in
      Succeeds-of_eq {m' = apply_transition u Event.restore (target u db).0 actor reason none}
        (unfold move_to_target in rw at_held) (λ v db' h. h) (restored u actor db fresh e reason)

  from_authorised :
      u.state ≡ LifecycleState.authorised
      → Succeeds (move_to_target u actor (target u db)) db (
          Moved u db
            (if is_some (target u db).1 then LifecycleState.held else LifecycleState.authorised))
  from_authorised e =
      let not_held : is LifecycleState.held ≡ false = ap (λ x. x == LifecycleState.held) e in
      let at_authorised : is LifecycleState.authorised ≡ true =
        ap (λ x. x == LifecycleState.authorised) e in
      Succeeds-of_eq {m' = recheck_authorised u actor (target u db).1}
        (unfold move_to_target in rw (not_held, at_authorised)) (λ v db' h. h)
        (rechecked u actor db fresh e (target u db).1)

  settles :
      (s : LifecycleState)
      → u.state ≡ s
      → is_reachable s ≡ true
      → Lands (settled s (must_halt u db) (target u db).0 (is_some (target u db).1))
  unfolding settled
  settles LifecycleState.halted_prohibited e reachable = record {
    result = u;
    after = db;
    returns = unfold re_evaluate in rw e;
    holds_after = Moved-at e (stays u db fresh);
  }
  settles LifecycleState.held e reachable = live _ (rw e) (λ p. rw p) (λ c. rw c (from_held e))
  settles LifecycleState.authorised e reachable =
      live _ (rw e) (λ p. rw p) (λ c. rw c (from_authorised e))
  settles LifecycleState.deployed e reachable = cc
  settles LifecycleState.retired e reachable = cc
  settles s e reachable = live _ (rw e) (λ p. rw p) (λ c. rw c (positional s e refl c))

-- A re-evaluation of a use case in any state but DEPLOYED and RETIRED, whose row has not moved
-- since it was read, returns, and leads to the state that the specification computes from its
-- state and the gates.
pub re_evaluate-settled :
    (u : UseCase) (actor : ℕ) (db : Session)
    → IsFresh u db
    → is_reachable u.state ≡ true
    → Succeeds (re_evaluate u actor) db (Moved u db (settled_state u db))
re_evaluate-settled u actor db fresh reachable = settles u actor db fresh u.state refl reachable
