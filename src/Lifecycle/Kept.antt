-- ===== src/Lifecycle/Kept.antt =====
-- The invariants of `advance_use_case` and `re_evaluate`, from those of `apply_transition`.
use aigov.Gates.Readiness.{classification_readiness}
use aigov.Gates.Verdict.{GateResult}
use aigov.Lifecycle.Advance.{
  advance_event, advance_fuel, advance_hop, advance_loop, advance_use_case, break_or, entry_of,
  gate_for_state, halt_use_case, must_halt, open_gate,
}
use aigov.Lifecycle.Legality.{Event, advance_table, is_terminal}
use aigov.Lifecycle.ReEvaluate.{
  full_vector, hold_use_case, move_by_rank, move_to_target, re_evaluate, recheck_authorised,
  target_from_vector,
}
use aigov.Lifecycle.Target.{target}
use aigov.Lifecycle.Transition.{apply_transition}
use aigov.Model.Enums.Lifecycle.{LifecycleState, lifecycle_state_eq}
use aigov.Model.Rows.Domain.{UseCase}
use aigov.Model.Session.{Session}
use aigov.Prelude.{
  Keeps, Keeps-bind, Keeps-if, Message, Option, arith, false, if◌then◌else◌, keeps_rules, kept_if,
  lift, none, not, ok, refl, some, suc, zero, ℕ, ◌&&◌, ◌==◌, ◌>>=◌, ◌≡◌,
}

advance_table-below :
    (s t : LifecycleState) → advance_table s ≡ some t → (t == LifecycleState.authorised) ≡ false
advance_table-below s t h = ground arith

target-below : (u : UseCase) (db : Session) → ((target u db).0 == LifecycleState.authorised) ≡ false
unfolding full_vector target_from_vector
target-below u db = ground arith

module _ (P : Session → Type 0)
    (step : (u : UseCase) (e : Event) (t : LifecycleState) (actor : ℕ)
        (reason held : Option Message)
      → (t == LifecycleState.authorised) ≡ false
      → Keeps P (apply_transition u e t actor reason held)) where
  hop_from :
      (u : UseCase) (e : Event) (actor : ℕ) (reason : Option Message) (o : Option LifecycleState)
      → ((t : LifecycleState) → o ≡ some t → (t == LifecycleState.authorised) ≡ false)
      → Keeps P (lift (entry_of o) >>= λ t. apply_transition u e t actor reason none)
  hop_from u e actor reason none below = record { at = λ db h. h }
  hop_from u e actor reason (some t) below = record {
    at = (step u e t actor reason none (below t refl)).at;
  }

  advance_hop-Keeps : (u : UseCase) (actor : ℕ) (g : GateResult) → Keeps P (advance_hop u actor g)
  unfolding advance_hop
  advance_hop-Keeps u actor g =
      hop_from u (advance_event u.state) actor (some g.reason) (advance_table u.state)
        (advance_table-below u.state)

  advance_loop-Keeps : (fuel : ℕ) (u : UseCase) (actor : ℕ) → Keeps P (advance_loop fuel u actor)
  unfolding advance_loop
  advance_loop-Keeps zero u actor = record { at = λ db h. h }
  advance_loop-Keeps (suc fuel) u actor = record {
    at = λ db h. go db h (open_gate (gate_for_state u.state u db)) (advance_loop-Keeps fuel);
  }
    where
      go :
          (db : Session)
          → P db
          → (o : Option GateResult) → ((v : UseCase) (a : ℕ) → Keeps P (advance_loop fuel v a))
          → P
              (break_or o
                (λ gate. do moved ← advance_hop u actor gate; advance_loop fuel moved actor)
                u
                db).1
      go db h none rest = h
      go db h (some g) rest =
          (Keeps-bind (advance_hop u actor g) (λ moved. advance_loop fuel moved actor)
              (advance_hop-Keeps u actor g) (λ v. rest v actor)).at
            db h

  halt_use_case-Keeps :
      (u : UseCase) (actor : ℕ) (reason : Message) → Keeps P (halt_use_case u actor reason)
  unfolding halt_use_case
  halt_use_case-Keeps u actor reason =
      step u Event.halt LifecycleState.halted_prohibited actor (some reason) none refl

  hold_use_case-Keeps :
      (u : UseCase) (actor : ℕ) (reason : Message) → Keeps P (hold_use_case u actor reason)
  unfolding hold_use_case
  hold_use_case-Keeps u actor reason =
      step u Event.hold LifecycleState.held actor (some reason) (some reason) refl

  pub advance_use_case-Keeps : (u : UseCase) (actor : ℕ) → Keeps P (advance_use_case u actor)
  unfolding advance_use_case
  advance_use_case-Keeps u actor = record {
    at = λ db h.
        kept_if P (not (is_terminal u.state) && must_halt u db)
          (halt_use_case u actor (classification_readiness u db).reason db)
          (advance_loop advance_fuel u actor db)
          ((halt_use_case-Keeps u actor (classification_readiness u db).reason).at db h)
          ((advance_loop-Keeps advance_fuel u actor).at db h);
  }

  recheck_authorised-Keeps :
      (u : UseCase) (actor : ℕ) (o : Option GateResult) → Keeps P (recheck_authorised u actor o)
  unfolding recheck_authorised
  recheck_authorised-Keeps u actor none = search keeps_rules
  recheck_authorised-Keeps u actor (some g) = hold_use_case-Keeps u actor g.reason

  move_by_rank-Keeps :
      (u : UseCase) (actor : ℕ) (t : LifecycleState × Option GateResult)
      → Keeps P (move_by_rank u actor t)
  unfolding move_by_rank
  move_by_rank-Keeps u actor t = search (keeps_rules, advance_use_case-Keeps)

  move_to_target-Keeps :
      (u : UseCase) (actor : ℕ) (t : LifecycleState × Option GateResult)
      → (t.0 == LifecycleState.authorised) ≡ false
      → Keeps P (move_to_target u actor t)
  unfolding move_to_target
  move_to_target-Keeps u actor t below =
      Keeps-if (u.state == LifecycleState.held) _ _ (step u Event.restore t.0 actor _ none below) (
        Keeps-if (u.state == LifecycleState.authorised) _ _ (recheck_authorised-Keeps u actor t.1)
          (move_by_rank-Keeps u actor t))

  pub re_evaluate-Keeps : (u : UseCase) (actor : ℕ) → Keeps P (re_evaluate u actor)
  unfolding re_evaluate
  re_evaluate-Keeps u actor = record {
    at = λ db h.
        let halted = halt_use_case u actor (classification_readiness u db).reason db in
        let moved = move_to_target u actor (target_from_vector (full_vector u db)) db in
        kept_if P (is_terminal u.state) (ok u, db) (if must_halt u db then halted else moved) h
          (kept_if P (must_halt u db) halted moved
            ((halt_use_case-Keeps u actor (classification_readiness u db).reason).at db h)
            ((move_to_target-Keeps u actor (target_from_vector (full_vector u db))
                (target-below u db)).at
              db h));
  }
