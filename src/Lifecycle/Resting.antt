-- ===== src/Lifecycle/Resting.antt =====
-- Where `advance_use_case` comes to rest.
use aigov.Gates.Frame.{
  SameReads, SameReads-refl, SameReads-trans, assessment_gate-same, classification_readiness-same,
  product_gate-same, treatment_gate-same, vendor_gate-same,
}
use aigov.Gates.Verdict.{GateResult}
use aigov.Lifecycle.Advance.{advance_event, advance_hop, advance_loop, gate_for_state, open_gate}
use aigov.Lifecycle.Edges.{
  Forward, to_assessment, to_ceiling, to_intake, to_product, to_treatment, to_vendor,
}
use aigov.Lifecycle.Frame.{
  commit_transition-SameReads, set_values-id, set_values-state, set_values-tenant_id,
}
use aigov.Lifecycle.Legality.{Event, advance_table, is_legal}
use aigov.Lifecycle.Transition.{apply_transition, commit_transition, row_matches, set_values}
use aigov.Model.Enums.Lifecycle.{LifecycleState, lifecycle_state_eq}
use aigov.Model.Rows.Domain.{UseCase}
use aigov.Model.Session.{Session}
use aigov.Prelude.{
  Bool, Bool-cases, List, Message, Option, Option-cases, [], any_row, arith, false, inl, inr,
  is_some, none, ok, refl, some, suc, sym, true, update_rows, zero, ℕ, ◌<◌, ◌∙◌, ◌∷◌, ◌≡◌,
}
use mathlib.Core.Bool.{or-true}

-- The gate of a state lets the use case on.
abbrev pub passes : UseCase → Session → LifecycleState → Bool
passes u db s = is_some (open_gate (gate_for_state s u db))

-- A walk along the forward edges through gates that let the use case on.
pub data Walk (p : LifecycleState → Bool) : LifecycleState → LifecycleState → Type 0 where
  stop : {s : LifecycleState} → Walk p s s
  hop : {s t r : LifecycleState} → p s ≡ true → Forward s t → Walk p t r → Walk p s r

-- The table's row is in the state that was read.
abbrev pub IsFresh : UseCase → Session → Type 0
IsFresh u db = any_row (row_matches u) db.use_cases ≡ true

-- The use case has walked through open gates to a state whose gate is shut.
pub record Rests (u : UseCase) (db : Session) (v : UseCase) (db' : Session) : Type 0 where
  pub walk : Walk (passes u db) u.state v.state
  pub blocked : passes u db v.state ≡ false
  pub fresh : IsFresh v db'
  pub same : SameReads u v db db'

module _ {u v : UseCase} {db db' : Session} (same : SameReads u v db db') where
  gate_for_state-same : (s : LifecycleState) → gate_for_state s v db' ≡ gate_for_state s u db
  unfolding gate_for_state
  gate_for_state-same LifecycleState.vendor_check = rw (vendor_gate-same same.facts)
  gate_for_state-same LifecycleState.product_check = rw (product_gate-same same.facts)
  gate_for_state-same LifecycleState.intake = rw (classification_readiness-same same.facts)
  gate_for_state-same LifecycleState.under_assessment = rw (assessment_gate-same same.facts)
  gate_for_state-same LifecycleState.treatment_pending = rw (treatment_gate-same same.facts)
  gate_for_state-same s = refl

  pub passes-same : (s : LifecycleState) → passes v db' s ≡ passes u db s
  passes-same s = rw (gate_for_state-same s)

matches_moved :
    (u v r r' : UseCase) (t : LifecycleState)
    → v.id ≡ u.id
    → v.tenant_id ≡ u.tenant_id
    → v.state ≡ t
    → r'.id ≡ r.id
    → r'.tenant_id ≡ r.tenant_id
    → r'.state ≡ t
    → row_matches u r ≡ true
    → row_matches v r' ≡ true
matches_moved u v r r' t a b c d e f h =
    rw (a, b, c, d, e, f, (lifecycle_state_eq.beq_iff t t).1 refl) (ground arith)

-- The updated row is in the state that the use case was moved to.
set_values-IsFresh :
    (u : UseCase) (e : Event) (t : LifecycleState) (held : Option Message) (rows : List UseCase)
    → any_row (row_matches u) rows ≡ true
    → any_row
        (row_matches (set_values u.state e t held u))
        (update_rows (row_matches u) (set_values u.state e t held) rows)
      ≡ true
set_values-IsFresh u e t held [] h = h
set_values-IsFresh u e t held (r ∷ rows) h = elim (Bool-cases (row_matches u r)) [
  | inl hit ↦
      let moved =
        matches_moved u (set_values u.state e t held u) r (set_values u.state e t held r) t
          (set_values-id u.state e t held u) (set_values-tenant_id u.state e t held u)
          (set_values-state u.state e t held u) (set_values-id u.state e t held r)
          (set_values-tenant_id u.state e t held r) (set_values-state u.state e t held r) hit in
      rw (hit, moved)
  | inr miss ↦ let rest = set_values-IsFresh u e t held rows (rw miss at h) in rw rest (or-true _)
]

pub commit_transition-IsFresh :
    (u : UseCase) (e : Event) (t : LifecycleState) (actor : ℕ) (reason held : Option Message)
    (db : Session)
    → IsFresh u db
    → IsFresh (set_values u.state e t held u) (commit_transition u e t actor reason held db)
unfolding commit_transition
commit_transition-IsFresh u e t actor reason held db h =
    set_values-IsFresh u e t held db.use_cases h

-- The hops that lie between a state and the ceiling.
abbrev pub hops_left : LifecycleState → ℕ
hops_left LifecycleState.requested = 6
hops_left LifecycleState.vendor_check = 5
hops_left LifecycleState.product_check = 4
hops_left LifecycleState.intake = 3
hops_left LifecycleState.under_assessment = 2
hops_left LifecycleState.treatment_pending = 1
hops_left _ = 0

-- A legal move of a fresh use case succeeds.
pub apply_transition-of_legal :
    (u : UseCase) (e : Event) (t : LifecycleState) (actor : ℕ) (reason held : Option Message)
    (db : Session)
    → is_legal u.state e t ≡ true
    → IsFresh u db
    → apply_transition u e t actor reason held db
      ≡ (ok (set_values u.state e t held u), commit_transition u e t actor reason held db)
unfolding apply_transition
apply_transition-of_legal u e t actor reason held db legal fresh = rw (legal, fresh)

-- A gate that lets a use case on is that of a state with a forward edge.
open_gate-Forward :
    (u : UseCase) (db : Session) (s : LifecycleState) (g : GateResult)
    → open_gate (gate_for_state s u db) ≡ some g
    → (t : LifecycleState) × (advance_table s ≡ some t)
      × Forward s t
      × (is_legal s (advance_event s) t ≡ true)
      × (hops_left s ≡ suc (hops_left t))
unfolding gate_for_state is_legal
open_gate-Forward u db LifecycleState.requested g h = (_, refl, to_vendor, refl, refl)
open_gate-Forward u db LifecycleState.vendor_check g h = (_, refl, to_product, refl, refl)
open_gate-Forward u db LifecycleState.product_check g h = (_, refl, to_intake, refl, refl)
open_gate-Forward u db LifecycleState.intake g h = (_, refl, to_assessment, refl, refl)
open_gate-Forward u db LifecycleState.under_assessment g h = (_, refl, to_treatment, refl, refl)
open_gate-Forward u db LifecycleState.treatment_pending g h = (_, refl, to_ceiling, refl, refl)
open_gate-Forward u db s g h = cc

-- One round of the loop.
pub advance_hop_lem :
    (u : UseCase) (actor : ℕ) (g : GateResult) (db : Session)
    → IsFresh u db
    → open_gate (gate_for_state u.state u db) ≡ some g
    → (v : UseCase) × (db' : Session) × (advance_hop u actor g db ≡ (ok v, db'))
      × Forward u.state v.state
      × (hops_left u.state ≡ suc (hops_left v.state))
      × IsFresh v db'
      × SameReads u v db db'
unfolding advance_hop
advance_hop_lem u actor g db fresh gate =
    let (t, entry, edge, legal, hops) = open_gate-Forward u db u.state g gate in
    let e = advance_event u.state in
    let moved = set_values-state u.state e t none u in
    (
      set_values u.state e t none u,
      commit_transition u e t actor (some g.reason) none db,
      rw entry (apply_transition-of_legal u e t actor (some g.reason) none db legal fresh),
      rw moved edge,
      rw moved hops,
      commit_transition-IsFresh u e t actor (some g.reason) none db fresh,
      commit_transition-SameReads u e t actor (some g.reason) none db,
    )

Walk-same :
    {p q : LifecycleState → Bool} {s t : LifecycleState}
    → ((x : LifecycleState) → p x ≡ q x)
    → Walk p s t
    → Walk q s t
Walk-same e stop = stop
Walk-same e (hop h f w) = hop (sym (e _) ∙ h) f (Walk-same e w)

pub advance_loop-Rests :
    (fuel : ℕ) (u : UseCase) (actor : ℕ) (db : Session)
    → hops_left u.state < fuel
    → IsFresh u db
    → (v : UseCase) × (db' : Session) × (advance_loop fuel u actor db ≡ (ok v, db'))
      × Rests u db v db'
unfolding advance_loop
advance_loop-Rests zero u actor db enough fresh = absurd (omega arith)
advance_loop-Rests (suc fuel) u actor db enough fresh =
    elim (Option-cases (open_gate (gate_for_state u.state u db))) [
      | inl shut ↦ (
        u,
        db,
        rw shut,
        record { walk = stop; blocked = rw shut; fresh = fresh; same = SameReads-refl u db },
      )
      | inr (g, gate) ↦
          let (v, db', hopped, edge, hops, fresh', same) =
            advance_hop_lem u actor g db fresh gate in
          let (w, db'', looped, rests) = advance_loop-Rests fuel v actor db' (omega arith) fresh' in
          (
            w,
            db'',
            rw (gate, advance_loop) (rw hopped looped),
            record {
              walk = hop (rw gate refl) edge (Walk-same (passes-same same) rests.walk);
              blocked = sym (passes-same same w.state) ∙ rests.blocked;
              fresh = rests.fresh;
              same = SameReads-trans same rests.same;
            },
          )
    ]
