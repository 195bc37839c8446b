-- ===== src/Lifecycle/Sound.antt =====
-- The trail, the keys and the hints through one transition.
use aigov.Lifecycle.Frame.{if_keeps, set_values-id, set_values-state}
use aigov.Lifecycle.Legality.{Event, is_legal}
use aigov.Lifecycle.Resting.{IsFresh, apply_transition-of_legal}
use aigov.Lifecycle.Trail.{
  HasHint, IsKeyed, IsKeyed-SoleRow, IsSound, IsTraced, has_edge, replay-append, replay_one,
}
use aigov.Lifecycle.Transition.{
  apply_transition, commit_transition, row_matches, set_values, transition_row,
}
use aigov.Model.Enums.Lifecycle.{LifecycleState, lifecycle_state_eq}
use aigov.Model.Rows.Domain.{UseCase}
use aigov.Model.Rows.Lifecycle.{LifecycleTransition}
use aigov.Model.Session.{Session}
use aigov.Prelude.{
  All-both, All-update_rows, Bool, Bool-cases, Keeps, List, Message, Option, [], any_row, arith,
  beq_flip, false, if◌then◌else◌, inl, inr, nat_eq, some, sym, true, update_rows, ℕ, ◌++◌, ◌==◌,
  ◌∷◌, ◌≡◌,
}

has_edge-of_legal :
    (s : LifecycleState) (e : Event) (t : LifecycleState)
    → is_legal s e t ≡ true
    → has_edge s t ≡ true
unfolding is_legal
has_edge-of_legal s Event.created t h = rw h
has_edge-of_legal s Event.advance t h = rw h
has_edge-of_legal s Event.hold t h = ground arith
has_edge-of_legal s Event.restore t h = ground arith
has_edge-of_legal s Event.halt t h = ground arith
has_edge-of_legal s Event.authorise t h = ground arith

-- The hint after the UPDATE, by the state and the hint before it.
hint_after :
    (s : LifecycleState) (e : Event) (t : LifecycleState) (held : Option Message) (row : UseCase)
    → is_legal s e t ≡ true
    → row.state ≡ s
    → HasHint row
    → HasHint (set_values s e t held row)
unfolding is_legal set_values
hint_after s Event.created t held row legal e h = ground arith
hint_after s Event.advance t held row legal e h = ground arith
hint_after s Event.hold t held row legal e h = ground arith
hint_after s Event.restore t held row legal e h = ground arith
hint_after s Event.halt t held row legal e h = ground arith
hint_after s Event.authorise t held row legal e h = ground arith

matched : (u r : UseCase) → row_matches u r ≡ true → (r.id ≡ u.id) × (r.state ≡ u.state)
matched u r h = (ground arith, (lifecycle_state_eq.beq_iff r.state u.state).0 (ground arith))

replay_edge :
    (i : ℕ) (u : UseCase) (t s : LifecycleState) (db : Session) (actor : ℕ)
    (reason : Option Message)
    → u.id ≡ i
    → u.state ≡ s
    → has_edge s t ≡ true
    → replay_one i (transition_row db u t actor reason) (some s) ≡ some t
replay_edge i u t s db actor reason e f edge =
    rw ((nat_eq.beq_iff u.id i).1 e, (lifecycle_state_eq.beq_iff u.state s).1 f, edge)

pub IsKeyed-update_rows :
    (p : UseCase → Bool) (f : UseCase → UseCase)
    → ((r : UseCase) → (f r).id ≡ r.id)
    → (rows : List UseCase) → IsKeyed rows
    → IsKeyed (update_rows p f rows)
IsKeyed-update_rows p f keep [] k = tt
IsKeyed-update_rows p f keep (r ∷ rows) k =
    let same = if_keeps (λ x. x.id) p f keep r in
    (
      All-update_rows (λ s. (s.id == r.id) ≡ false)
          (λ s. (s.id == (if p r then f r else r).id) ≡ false) p f (λ s _ h. rw (same, keep s) h)
          (λ s _ h. rw same h) rows k.0,
      IsKeyed-update_rows p f keep rows k.1,
    )

module _ (u : UseCase) (e : Event) (t : LifecycleState) (actor : ℕ) (reason held : Option Message)
    (db : Session) (legal : is_legal u.state e t ≡ true) where
  row : LifecycleTransition
  row = transition_row db u t actor reason

  moved : UseCase → UseCase
  moved = set_values u.state e t held

  trail_of_moved :
      (trail : List LifecycleTransition) (r : UseCase)
      → row_matches u r ≡ true
      → IsTraced trail r
      → IsTraced (trail ++ row ∷ []) (moved r)
  unfolding row moved
  trail_of_moved trail r hit traced =
      let (same_id, same_state) = matched u r hit in
      rw
        (
          set_values-id u.state e t held r,
          set_values-state u.state e t held r,
          replay-append,
          traced,
        )
        (replay_edge r.id u t r.state db actor reason (sym same_id) (sym same_state)
          (rw same_state (has_edge-of_legal u.state e t legal)))

  trail_of_other :
      (trail : List LifecycleTransition) (r : UseCase)
      → (r.id == u.id) ≡ false
      → IsTraced trail r
      → IsTraced (trail ++ row ∷ []) r
  unfolding row
  trail_of_other trail r other traced = rw (replay-append, traced) rw (beq_flip r.id u.id other)

  hint_of_moved : (r : UseCase) → row_matches u r ≡ true → HasHint r → HasHint (moved r)
  unfolding moved
  hint_of_moved r hit h = hint_after u.state e t held r legal ((matched u r hit).1) h

  commit_transition-IsSound :
      IsFresh u db → IsSound db → IsSound (commit_transition u e t actor reason held db)
  unfolding commit_transition row moved
  commit_transition-IsSound fresh h = record {
    keyed =
        IsKeyed-update_rows (row_matches u) moved (set_values-id u.state e t held) db.use_cases
          h.keyed;
    traced =
        All-update_rows
          (λ r. IsTraced db.transitions r × (row_matches u r ≡ false → (r.id == u.id) ≡ false)) _
          (row_matches u) moved (λ r hit p. trail_of_moved db.transitions r hit p.0)
          (λ r miss p. trail_of_other db.transitions r (p.1 miss) p.0) db.use_cases
          (All-both _ _ db.use_cases h.traced (IsKeyed-SoleRow u db.use_cases h.keyed fresh));
    hinted =
        All-update_rows HasHint HasHint (row_matches u) moved hint_of_moved (λ r _ p. p)
          db.use_cases h.hinted;
  }

-- Whether it succeeds or raises, `apply_transition` keeps the session sound.
pub apply_transition-Keeps :
    (u : UseCase) (e : Event) (t : LifecycleState) (actor : ℕ) (reason held : Option Message)
    → Keeps IsSound (apply_transition u e t actor reason held)
apply_transition-Keeps u e t actor reason held = record { at = λ db h. at db h }
  where
    at : (db : Session) → IsSound db → IsSound (apply_transition u e t actor reason held db).1
    at db h = elim (Bool-cases (is_legal u.state e t)) [
      | inr illegal ↦ unfold apply_transition in rw illegal h
      | inl legal ↦ elim (Bool-cases (any_row (row_matches u) db.use_cases)) [
        | inr stale ↦ unfold apply_transition in rw (legal, stale) h
        | inl fresh ↦
            rw (apply_transition-of_legal u e t actor reason held db legal fresh)
              (commit_transition-IsSound u e t actor reason held db legal fresh h)
      ]
    ]
