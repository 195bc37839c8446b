-- ===== src/Lifecycle/Integrity.antt =====
-- The trail, the keys and the hints through a call of `apply_transition`
-- (app/services/lifecycle_service.py).
use aigov.Lifecycle.Legality.{Event}
use aigov.Lifecycle.Sound.{apply_transition-Keeps}
use aigov.Lifecycle.Trail.{IsSound}
use aigov.Lifecycle.Transition.{apply_transition}
use aigov.Model.Enums.Lifecycle.{LifecycleState, lifecycle_state_eq}
use aigov.Model.Rows.Domain.{UseCase}
use aigov.Model.Session.{Session}
use aigov.Prelude.{Message, Option, ℕ}

-- A call of `apply_transition`, whether it returns or raises, leads from a sound session to a sound
-- one: the recorded transitions of every use case lead without a gap, along legal edges, from
-- REQUESTED to the state of its row, the rows have different ids, and the hint of a held use case
-- is there exactly in HELD.
pub apply_transition-IsSound :
    (u : UseCase) (e : Event) (t : LifecycleState) (actor : ℕ) (reason held : Option Message)
    (db : Session)
    → IsSound db
    → IsSound (apply_transition u e t actor reason held db).1
apply_transition-IsSound u e t actor reason held =
    (apply_transition-Keeps u e t actor reason held).at
