-- ===== src/Prelude/Outcomes.antt =====
-- What holds when an action returns: one rule for each step of a chain.
use mathlib.Core.Path.{◌≡◌, refl}
use mathlib.Core.Bool.{Bool, true, false}
use mathlib.Core.Logic.{◌⊎◌, inl, inr}
use aigov.Prelude.Errors.{Error, Result, ok, err, Exec, guard, and_then, pure, read, gets, ◌>>=◌}
use aigov.Prelude.Invariants.{ok_eq}
use mathlib.Core.Path.{subst}

-- The action returned a value and a state with the property, or it raised.
abbrev pub After {ℓ κ} : {S A : Type ℓ} → (A → S → Type κ) → Result A × S → Type κ
After Q (ok a, s) = Q a s
After Q (err e, s) = Unit

pub After-returned {ℓ κ} :
    {S A : Type ℓ} (Q : A → S → Type κ) (x : Result A × S) {a : A}
    → After Q x
    → x.0 ≡ ok a
    → Q a x.1
After-returned Q (ok b, s) h e = subst (λ c. Q c s) (ok_eq e) h
After-returned Q (err e, s) h e' = cc

-- A step that returned, with its value.
pub After-step {ℓ κ} :
    {S A B : Type ℓ} (Q : B → S → Type κ) (f : A → Exec S B) (x : Result A × S)
    → ((a : A) → x.0 ≡ ok a → After Q (f a x.1))
    → After Q (and_then f x)
After-step Q f (ok a, s) h = h a refl
After-step Q f (err e, s) h = tt

-- A test that was passed.
pub After-guard {ℓ κ} :
    {S B : Type ℓ} (Q : B → S → Type κ) (f : Unit → Exec S B) (b : Bool) (e : Error) (s : S)
    → (b ≡ true → After Q (f tt s))
    → After Q (and_then f (guard b e s))
After-guard Q f true e s h = h refl
After-guard Q f false e s h = tt

pub After-of_ok {ℓ κ} :
    {S A : Type ℓ} (Q : A → S → Type κ) (x : Result A × S)
    → ((a : A) → x.0 ≡ ok a → Q a x.1)
    → After Q x
After-of_ok Q (ok a, s) h = h a refl
After-of_ok Q (err e, s) h = tt

-- Whatever the action returns has the property.
pub record Yields {ℓ} {T R : Type ℓ} (Q : R → Type ℓ) (action : Exec T R) : Type ℓ where
  pub at : (s : T) → After (λ value _. Q value) (action s)

pub Yields-bind {ℓ} :
    {T R U : Type ℓ} {Q : U → Type ℓ} (first : Exec T R) (next : R → Exec T U)
    → ((value : R) → Yields Q (next value))
    → Yields Q (first >>= next)
Yields-bind {Q = Q} first next h = record {
  at = λ s. After-step (λ value _. Q value) next (first s) (λ value _. (h value).at (first s).1);
}

pub Yields-pure {ℓ} :
    {T R : Type ℓ} {Q : R → Type ℓ} (value : R) → Q value → Yields Q (pure {S = T} value)
Yields-pure value h = record { at = λ s. h }

pub ruleset yields_rules = (Yields-bind, Yields-pure)

-- What holds when an action that starts in a given state returns; its first steps only read.
pub record From {ℓ κ} {T R : Type ℓ} (start : T) (Q : R → T → Type κ) (action : Exec T R)
    : Type κ where
  pub at : After Q (action start)

module _ {ℓ κ} {T R U : Type ℓ} {start : T} {Q : U → T → Type κ} where
  pub From-quiet :
      (first : Exec T R) (next : R → Exec T U)
      → (first start).1 ≡ start
      → ((value : R) → (first start).0 ≡ ok value → From start Q (next value))
      → From start Q (first >>= next)
  From-quiet first next quiet h = record {
    at = After-step Q next (first start) (λ value e. rw quiet (h value e).at);
  }

  pub From-read :
      (query : T → Result R) (next : R → Exec T U)
      → ((value : R) → query start ≡ ok value → From start Q (next value))
      → From start Q (read query >>= next)
  From-read query next h = record {
    at = After-step Q next (read query start) (λ value e. (h value e).at);
  }

  pub From-gets :
      (query : T → R) (next : R → Exec T U)
      → From start Q (next (query start))
      → From start Q (gets query >>= next)
  From-gets query next h = record { at = h.at }

module _ {ℓ κ} {T U : Type ℓ} {start : T} {Q : U → T → Type κ} where
  pub From-guard :
      (b : Bool) (e : Error) (next : Unit → Exec T U)
      → (b ≡ true → From start Q (next tt))
      → From start Q (guard b e >>= next)
  From-guard b e next h = record { at = After-guard Q next b e start (λ passed. (h passed).at) }

pub ruleset from_rules = (From-read, From-gets, From-guard)

pub Result-cases {ℓ} :
    {A : Type ℓ} (r : Result A) → ((a : A) × (r ≡ ok a)) ⊎ ((e : Error) × (r ≡ err e))
Result-cases (ok a) = inl (a, refl)
Result-cases (err e) = inr (e, refl)

-- Of a result that is no error.
abbrev pub IfOk {ℓ κ} : {A : Type ℓ} → (A → Type κ) → Result A → Type κ
IfOk Q (err e) = Unit
IfOk Q (ok a) = Q a

pub IfOk-map {ℓ κ} :
    {A : Type ℓ} (P Q : A → Type κ) → ((a : A) → P a → Q a) → (r : Result A) → IfOk P r → IfOk Q r
IfOk-map P Q f (err e) h = tt
IfOk-map P Q f (ok a) h = f a h

pub IfOk-at {ℓ κ} : {A : Type ℓ} (Q : A → Type κ) (r : Result A) (a : A) → r ≡ ok a → IfOk Q r → Q a
IfOk-at Q r a e h = rw e at h
