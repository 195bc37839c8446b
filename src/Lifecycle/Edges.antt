-- ===== src/Lifecycle/Edges.antt =====
-- The moves that `_is_legal` (app/services/lifecycle_service.py) accepts, as a relation.
use aigov.Lifecycle.Legality.{Event, advance_table, is_advanced, is_legal}
use aigov.Model.Enums.Lifecycle.{LifecycleState, lifecycle_state_eq}
use aigov.Prelude.{arith, holds, inl, inr, refl, true, ◌↔◌, ◌≡◌, ◌≢◌, ◌⊎◌}

-- The states that a gate guards, with the two that lie beyond the gates.
pub data Advanced : LifecycleState → Type 0 where
  at_vendor : Advanced LifecycleState.vendor_check
  at_product : Advanced LifecycleState.product_check
  at_intake : Advanced LifecycleState.intake
  at_assessment : Advanced LifecycleState.under_assessment
  at_treatment : Advanced LifecycleState.treatment_pending
  at_ceiling : Advanced LifecycleState.pending_authorisation
  at_authorised : Advanced LifecycleState.authorised

pub data Forward : LifecycleState → LifecycleState → Type 0 where
  to_vendor : Forward LifecycleState.requested LifecycleState.vendor_check
  to_product : Forward LifecycleState.vendor_check LifecycleState.product_check
  to_intake : Forward LifecycleState.product_check LifecycleState.intake
  to_assessment : Forward LifecycleState.intake LifecycleState.under_assessment
  to_treatment : Forward LifecycleState.under_assessment LifecycleState.treatment_pending
  to_ceiling : Forward LifecycleState.treatment_pending LifecycleState.pending_authorisation

-- One move of a use case.
pub data Edge : LifecycleState → Event → LifecycleState → Type 0 where
  create : {s t : LifecycleState} → Forward s t → Edge s Event.created t
  pass : {s t : LifecycleState} → Forward s t → Edge s Event.advance t
  prohibit :
      {s : LifecycleState}
      → s ≢ LifecycleState.halted_prohibited
      → Edge s Event.halt LifecycleState.halted_prohibited
  regress : {s : LifecycleState} → Advanced s → Edge s Event.hold LifecycleState.held
  recover : {t : LifecycleState} → Advanced t → Edge LifecycleState.held Event.restore t
  sign : Edge LifecycleState.pending_authorisation Event.authorise LifecycleState.authorised

Forward-advance_table : {s t : LifecycleState} → Forward s t → holds (advance_table s) t ≡ true
Forward-advance_table to_vendor = refl
Forward-advance_table to_product = refl
Forward-advance_table to_intake = refl
Forward-advance_table to_assessment = refl
Forward-advance_table to_treatment = refl
Forward-advance_table to_ceiling = refl

Advanced-is_advanced : {s : LifecycleState} → Advanced s → is_advanced s ≡ true
Advanced-is_advanced at_vendor = refl
Advanced-is_advanced at_product = refl
Advanced-is_advanced at_intake = refl
Advanced-is_advanced at_assessment = refl
Advanced-is_advanced at_treatment = refl
Advanced-is_advanced at_ceiling = refl
Advanced-is_advanced at_authorised = refl

Edge-is_legal : {s t : LifecycleState} {e : Event} → Edge s e t → is_legal s e t ≡ true
unfolding is_legal
Edge-is_legal (create f) = Forward-advance_table f
Edge-is_legal (pass f) = Forward-advance_table f
Edge-is_legal (prohibit h) = ground arith
Edge-is_legal (regress a) = Advanced-is_advanced a
Edge-is_legal (recover a) = Advanced-is_advanced a
Edge-is_legal sign = refl

ruleset forward_rules = (to_vendor, to_product, to_intake, to_assessment, to_treatment, to_ceiling)

ruleset advanced_rules =
    (at_vendor, at_product, at_intake, at_assessment, at_treatment, at_ceiling, at_authorised)

advance_table-Forward : (s t : LifecycleState) → holds (advance_table s) t ≡ true → Forward s t
advance_table-Forward s t h = grind (arith, forward_rules)

is_advanced-Advanced : (s : LifecycleState) → is_advanced s ≡ true → Advanced s
is_advanced-Advanced s h = grind (arith, advanced_rules)

is_legal-Edge :
    (s : LifecycleState) (e : Event) (t : LifecycleState) → is_legal s e t ≡ true → Edge s e t
unfolding is_legal
is_legal-Edge s Event.created t h = create (advance_table-Forward s t h)
is_legal-Edge s Event.advance t h = pass (advance_table-Forward s t h)
is_legal-Edge s Event.halt t h =
    let target : t ≡ LifecycleState.halted_prohibited = ground arith in
    rw target (prohibit (ground arith))
is_legal-Edge s Event.hold t h =
    let target : t ≡ LifecycleState.held = ground arith in
    rw target (regress (is_advanced-Advanced s (ground arith)))
is_legal-Edge s Event.restore t h =
    let source : s ≡ LifecycleState.held = ground arith in
    rw source (recover (is_advanced-Advanced t (ground arith)))
is_legal-Edge s Event.authorise t h =
    let source : s ≡ LifecycleState.pending_authorisation = ground arith in
    let target : t ≡ LifecycleState.authorised = ground arith in rw (source, target) sign

into_authorised :
    (s : LifecycleState) (e : Event)
    → is_legal s e LifecycleState.authorised ≡ true
    → ((s ≡ LifecycleState.pending_authorisation) × (e ≡ Event.authorise))
      ⊎ ((s ≡ LifecycleState.held) × (e ≡ Event.restore))
unfolding is_legal
into_authorised s Event.created h = grind arith
into_authorised s Event.advance h = grind arith
into_authorised s Event.halt h = ground arith
into_authorised s Event.hold h = ground arith
into_authorised s Event.restore h = inr (ground arith, refl)
into_authorised s Event.authorise h = inl (ground arith, refl)

entry :
    (s : LifecycleState) (e : Event)
    → ((s ≡ LifecycleState.pending_authorisation) × (e ≡ Event.authorise))
      ⊎ ((s ≡ LifecycleState.held) × (e ≡ Event.restore))
    → Edge s e LifecycleState.authorised
entry s e (inl (from, by)) = rw (from, by) sign
entry s e (inr (from, by)) = rw (from, by) (recover at_authorised)

-- `_is_legal` accepts a move exactly when the relation `Edge` has it. There are two moves into
-- AUTHORISED: the event `authorise` from PENDING_AUTHORISATION and, although the comment beside that
-- branch excludes it, the event `restore` from HELD.
pub is_legal_iff-Edge :
    (s : LifecycleState) (e : Event) (t : LifecycleState)
    → ((is_legal s e t ≡ true) ↔ Edge s e t)
      × ((is_legal s e LifecycleState.authorised ≡ true) ↔ (
          ((s ≡ LifecycleState.pending_authorisation) × (e ≡ Event.authorise))
          ⊎ ((s ≡ LifecycleState.held) × (e ≡ Event.restore))))
is_legal_iff-Edge s e t =
    ((is_legal-Edge s e t, Edge-is_legal), (into_authorised s e, λ h. Edge-is_legal (entry s e h)))
