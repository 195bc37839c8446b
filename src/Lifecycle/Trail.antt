-- ===== src/Lifecycle/Trail.antt =====
-- The trail: what the recorded transitions say of each use case.
use aigov.Lifecycle.Legality.{Event, is_legal}
use aigov.Lifecycle.Transition.{row_matches}
use aigov.Model.Enums.Lifecycle.{LifecycleState, lifecycle_state_eq}
use aigov.Model.Rows.Domain.{UseCase}
use aigov.Model.Rows.Lifecycle.{LifecycleTransition}
use aigov.Model.Session.{Session}
use aigov.Prelude.{
  All, Bool, IsKeyedBy, List, Option, [], any_row, arith, false, if◌then◌else◌, is_some, nat_eq,
  none, refl, sole_row, some, true, ℕ, ◌&&◌, ◌++◌, ◌==◌, ◌||◌, ◌∷◌, ◌≡◌,
}

-- Some event leads from one state to the other.
abbrev pub has_edge : LifecycleState → LifecycleState → Bool
has_edge s t =
    is_legal s Event.advance t
    || is_legal s Event.hold t
    || is_legal s Event.restore t
    || is_legal s Event.halt t
    || is_legal s Event.authorise t

-- One recorded transition of a use case: it starts where the use case is, along an edge. Those of
-- other use cases are passed over, and a broken trail has no end.
abbrev pub replay_one : ℕ → LifecycleTransition → Option LifecycleState → Option LifecycleState
replay_one i row none = none
replay_one i row (some s) =
    if row.use_case_id == i
    then (if row.from_state == s && has_edge s row.to_state then some row.to_state else none)
    else some s

abbrev pub replay : ℕ → List LifecycleTransition → Option LifecycleState → Option LifecycleState
replay i [] o = o
replay i (row ∷ rows) o = replay i rows (replay_one i row o)

pub replay-append :
    (i : ℕ) (rows : List LifecycleTransition) (row : LifecycleTransition)
    (o : Option LifecycleState)
    → replay i (rows ++ row ∷ []) o ≡ replay_one i row (replay i rows o)
replay-append i [] row o = refl
replay-append i (r ∷ rows) row o = replay-append i rows row (replay_one i r o)

-- The recorded transitions lead, without a gap and along legal edges, from REQUESTED to the state
-- of the row.
abbrev pub IsTraced : List LifecycleTransition → UseCase → Type 0
IsTraced trail row = replay row.id trail (some LifecycleState.requested) ≡ some row.state

-- `id` is the primary key.
abbrev pub IsKeyed : List UseCase → Type 0
IsKeyed = IsKeyedBy (λ row. row.id)

-- The hint of a held use case is there exactly in HELD.
abbrev pub HasHint : UseCase → Type 0
HasHint row = is_some row.held_from_state ≡ (row.state == LifecycleState.held)

pub record IsSound (db : Session) : Type 0 where
  pub keyed : IsKeyed db.use_cases
  pub traced : All (IsTraced db.transitions) db.use_cases
  pub hinted : All HasHint db.use_cases

-- Only the row that the use case was read from has its id.
abbrev pub SoleRow : UseCase → List UseCase → Type 0
SoleRow u = All (λ r. row_matches u r ≡ false → (r.id == u.id) ≡ false)

pub IsKeyed-SoleRow :
    (u : UseCase) (rows : List UseCase)
    → IsKeyed rows
    → any_row (row_matches u) rows ≡ true
    → SoleRow u rows
IsKeyed-SoleRow u rows = sole_row (λ row. row.id) (row_matches u) u.id (λ r hit. ground arith) rows
