-- ===== src/ClassificationService/Current.antt =====
-- The current snapshot of a use case after `snapshot_classification` (app/services/classification.py).
use aigov.ClassificationService.{ClassificationProposal}
use aigov.ClassificationService.Snapshot.{
  SnapshotOptions, is_current_of, new_snapshot, prior_version, snapshot_classification, stamped,
  write_snapshot,
}
use aigov.Lifecycle.Advance.{advance_use_case}
use aigov.Lifecycle.Kept.{advance_use_case-Keeps}
use aigov.Lifecycle.Legality.{Event, is_legal}
use aigov.Lifecycle.Transition.{apply_transition, row_matches}
use aigov.Model.Enums.Lifecycle.{LifecycleState, lifecycle_state_eq}
use aigov.Model.Rows.Assessment.{Classification}
use aigov.Model.Rows.Domain.{UseCase}
use aigov.Model.Session.{Session}
use aigov.Prelude.{
  All, All-map, Bool, Bool-cases, Keeps, List, Message, Option, Result, [], and_then, any_row, ap,
  arith, err, false, find?, if◌then◌else◌, inl, inr, ltb, nat_eq, ok, pure, refl, some, true,
  update_rows, where_rows, ℕ, ◌&&◌, ◌++◌, ◌+◌, ◌==◌, ◌∙◌, ◌∷◌, ◌≡◌, ◌≤◌,
}
use native.Mathlib.Nat.{le_trans}

pub only_new :
    {A : Type 0} (p : A → Bool) (f : A → A) (new : A)
    → ((r : A) → p (f r) ≡ false)
    → p new ≡ true
    → (rows : List A) → where_rows p (update_rows p f rows ++ new ∷ []) ≡ new ∷ []
only_new p f new unset hit [] = rw hit refl
only_new p f new unset hit (r ∷ rows) =
    let rest = only_new p f new unset hit rows in
    elim (Bool-cases (p r)) [ inl k ↦ rw (k, unset r) rest | inr k ↦ rw (k, k) rest ]

first_of : {A : Type 0} {a b : A} {rows more : List A} → a ∷ rows ≡ b ∷ more → some a ≡ some b
first_of h = cc

pub find?-sole :
    {A : Type 0} (p : A → Bool) (rows : List A) {a : A}
    → where_rows p rows ≡ a ∷ []
    → find? p rows ≡ some a
find?-sole p [] h = cc
find?-sole p (r ∷ rows) h = elim (Bool-cases (p r)) [
  | inl k ↦ rw k (first_of (rw k at h))
  | inr k ↦ rw k (find?-sole p rows (rw k at h))
]

apply_transition-classifications :
    (u : UseCase) (e : Event) (t : LifecycleState) (actor : ℕ) (reason held : Option Message)
    (db : Session)
    → (apply_transition u e t actor reason held db).1.classifications ≡ db.classifications
unfolding apply_transition
apply_transition-classifications u e t actor reason held db =
    elim (Bool-cases (is_legal u.state e t)) [
      | inr illegal ↦ rw illegal refl
      | inl legal ↦ elim (Bool-cases (any_row (row_matches u) db.use_cases)) [
        | inr stale ↦ rw (legal, stale) refl
        | inl fresh ↦ rw (legal, fresh) refl
      ]
    ]

-- Neither an advance nor what it is made of writes a classification.
advance_use_case-classifications :
    (u : UseCase) (actor : ℕ) (db : Session)
    → (advance_use_case u actor db).1.classifications ≡ db.classifications
advance_use_case-classifications u actor db =
    (advance_use_case-Keeps (λ db'. db'.classifications ≡ db.classifications) moves u actor).at db
      refl
  where
    moves :
        (v : UseCase) (e : Event) (t : LifecycleState) (a : ℕ) (reason held : Option Message)
        → (t == LifecycleState.authorised) ≡ false
        → Keeps
            (λ db'. db'.classifications ≡ db.classifications)
            (apply_transition v e t a reason held)
    moves v e t a reason held _ = record {
      at = λ db' h. apply_transition-classifications v e t a reason held db' ∙ h;
    }

abbrev pub UpToVersion : UseCase → ℕ → List Classification → Type 0
UpToVersion u n = All (λ r. (r.use_case_id == u.id) ≡ true → r.version ≤ n)

at_head : (mine : Bool) (v rest : ℕ) → mine ≡ true → v ≤ (if mine && ltb rest v then v else rest)
at_head mine v rest h = ground arith

at_tail : (mine : Bool) (v rest : ℕ) → rest ≤ (if mine && ltb rest v then v else rest)
at_tail mine v rest = ground arith

prior_version-bounds :
    (u : UseCase) (rows : List Classification) → UpToVersion u (prior_version u rows) rows
unfolding prior_version
prior_version-bounds u [] = tt
prior_version-bounds u (r ∷ rows) = (
  λ mine. at_head (r.use_case_id == u.id) r.version (prior_version u rows) mine,
  All-map _ _
      (λ s le mine.
        le_trans (le mine) (at_tail (r.use_case_id == u.id) r.version (prior_version u rows)))
      rows (prior_version-bounds u rows),
)

-- The rows of a use case that are current, and how they are numbered.
pub record IsCurrentOnly (u : UseCase) (row : Classification) (before after : List Classification)
    : Type 0 where
  pub only : where_rows (is_current_of u) after ≡ row ∷ []
  pub newest : UpToVersion u (prior_version u before) before
  pub numbered : row.version ≡ prior_version u before + 1

pub write_snapshot-only :
    (u : UseCase) (proposal : ClassificationProposal) (options : SnapshotOptions) (actor : ℕ)
    (db : Session)
    → where_rows (is_current_of u) (write_snapshot u proposal options actor db).classifications
      ≡ new_snapshot u proposal options db ∷ []
unfolding write_snapshot
write_snapshot-only u proposal options actor db =
    only_new (is_current_of u) (λ r. record r { is_current = false })
      (new_snapshot u proposal options db) (λ r. ground arith)
      (rw ((nat_eq.beq_iff u.id u.id).1 refl) refl) db.classifications

returned_session :
    {A B : Type 0} (b : B) (x : Result A × Session) → (and_then (λ _. pure b) x).1 ≡ x.1
returned_session b (ok a, s) = refl
returned_session b (err e, s) = refl

-- Whatever the tables held before, and whether the advance that follows returns or raises, after a
-- snapshot the use case has one current classification, the new one, and its version is one above
-- a number that no earlier version of the use case exceeds.
pub snapshot_classification-IsCurrentOnly :
    (u : UseCase) (proposal : ClassificationProposal) (options : SnapshotOptions) (actor : ℕ)
    (db : Session)
    → IsCurrentOnly u
        (new_snapshot u proposal options db)
        db.classifications
        (snapshot_classification u proposal options actor db).1.classifications
unfolding snapshot_classification
snapshot_classification-IsCurrentOnly u proposal options actor db =
    let written = write_snapshot u proposal options actor db in
    let advanced = advance_use_case (stamped proposal options u) actor written in
    record {
      only =
          ap (λ (s : Session). where_rows (is_current_of u) s.classifications)
            (returned_session (new_snapshot u proposal options db) advanced)
          ∙ ap (where_rows (is_current_of u))
              (advance_use_case-classifications (stamped proposal options u) actor written)
          ∙ write_snapshot-only u proposal options actor db;
      newest = prior_version-bounds u db.classifications;
      numbered = refl;
    }
