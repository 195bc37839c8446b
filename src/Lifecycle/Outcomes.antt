-- ===== src/Lifecycle/Outcomes.antt =====
-- The specification `settled` of a re-evaluation, applied once and twice.
use aigov.Gates.Verdict.{GateResult}
use aigov.Lifecycle.Fixpoint.{is_positional}
use aigov.Lifecycle.Legality.{is_advanced, is_terminal}
use aigov.Lifecycle.Settling.{is_reachable, settled}
use aigov.Lifecycle.Target.{place}
use aigov.Model.Enums.Lifecycle.{LifecycleState}
use aigov.Prelude.{
  Bool, Option, arith, false, if◌then◌else◌, inl, inr, is_some, leb, ltb, none, refl, true, ℕ, ◌<◌,
  ◌≡◌, ◌≤◌, ◌⊎◌,
}

pub settled-reachable :
    (s : LifecycleState) (p : Bool) (t : LifecycleState) (b : Bool)
    → is_advanced t ≡ true
    → is_reachable s ≡ true
    → is_reachable (settled s p t b) ≡ true
unfolding settled
settled-reachable s p t b a h = ground arith

-- Where the specification can lead, and what it makes of each of these.
pub data Outcome (p : Bool) (t : LifecycleState) (b : Bool) : LifecycleState → Type 0 where
  is_halted : {r : LifecycleState} → r ≡ LifecycleState.halted_prohibited → Outcome p t b r
  at_target : {r : LifecycleState} → p ≡ false → r ≡ t → Outcome p t b r
  still_authorised :
      {r : LifecycleState} → p ≡ false → r ≡ LifecycleState.authorised → b ≡ false → Outcome p t b r
  is_held : {r : LifecycleState} → p ≡ false → r ≡ LifecycleState.held → Outcome p t b r

positional-Outcome :
    (t : LifecycleState) (b : Bool) (test : Bool)
    → Outcome false t b (if test then t else LifecycleState.held)
positional-Outcome t b true = at_target refl refl
positional-Outcome t b false = is_held refl refl

authorised-Outcome :
    (t : LifecycleState) (b : Bool)
    → Outcome false t b (if b then LifecycleState.held else LifecycleState.authorised)
authorised-Outcome t true = is_held refl refl
authorised-Outcome t false = still_authorised refl refl refl

pub settled_once :
    (s : LifecycleState) (p : Bool) (t : LifecycleState) (b : Bool)
    → Outcome p t b (settled s p t b)
unfolding settled
settled_once LifecycleState.halted_prohibited p t b = is_halted refl
settled_once LifecycleState.held true t b = is_halted refl
settled_once LifecycleState.held false t b = at_target refl refl
settled_once LifecycleState.authorised true t b = is_halted refl
settled_once LifecycleState.authorised false t b = authorised-Outcome t b
settled_once s true t b = is_halted refl
settled_once s false t b = positional-Outcome t b (leb (place s) (place t))

-- The states that a re-evaluation leaves alone.
abbrev pub IsSettled : Bool → LifecycleState → Bool → LifecycleState → Type 0
IsSettled p t b r =
    (r ≡ LifecycleState.halted_prohibited)
    ⊎ ((p ≡ false) × (r ≡ t))
    ⊎ ((p ≡ false) × (r ≡ LifecycleState.authorised) × (b ≡ false))

target_again :
    (t : LifecycleState) (b : Bool) → is_advanced t ≡ true → place t ≤ 6 → settled t false t b ≡ t
unfolding settled
target_again t b a le = ground arith

pub settled_again :
    {p : Bool} {t : LifecycleState} {b : Bool} {r : LifecycleState}
    → is_advanced t ≡ true
    → place t ≤ 6
    → Outcome p t b r
    → IsSettled p t b (settled r p t b)
unfolding settled
settled_again a le (is_halted e) = inl (rw e)
settled_again {t = t} {b = b} a le (at_target c e) =
    inr (inl (c, rw (c, e) (target_again t b a le)))
settled_again a le (still_authorised c e f) = inr (inr (c, rw (c, e, f) refl, f))
settled_again a le (is_held c e) = inr (inl (c, rw (c, e)))

pub positional_reachable : (s : LifecycleState) → is_positional s ≡ true → is_reachable s ≡ true
positional_reachable LifecycleState.requested h = refl
positional_reachable s h = ground arith

pub settled_behind :
    (s : LifecycleState) (p : Bool) (t : LifecycleState) (b : Bool)
    → is_positional s ≡ true
    → p ≡ false
    → place t < place s
    → settled s p t b ≡ LifecycleState.held
unfolding settled
settled_behind LifecycleState.requested p t b h c lt = absurd (omega arith)
settled_behind s p t b h c lt = ground arith

pub settled_from_held :
    (s : LifecycleState) (p : Bool) (t : LifecycleState) (b : Bool)
    → s ≡ LifecycleState.held
    → p ≡ false
    → settled s p t b ≡ t
unfolding settled
settled_from_held s p t b e c = rw (e, c)

pub positional_live : (s : LifecycleState) → is_positional s ≡ true → is_terminal s ≡ false
positional_live LifecycleState.requested h = refl
positional_live s h = ground arith

pub not_before : (a b : ℕ) → a ≡ b → (ltb a b ≡ false) × (ltb b a ≡ false)
not_before a b e = ground arith

pub none_of : {o : Option GateResult} → is_some o ≡ false → o ≡ none
none_of h = ground arith
