-- ===== src/Prelude/Invariants.antt =====
-- Invariants of actions: one rule for each way to build an action.
use mathlib.Core.Bool.{Bool, true, false}
use aigov.Prelude.Tests.{if◌then◌else◌}
use mathlib.Core.Path.{ap, ◌≡◌, refl}
use mathlib.Core.Option.{Option, none, some}
use aigov.Prelude.Errors.{
  or_error, Error, guard, Result, ok, err, Exec, pure, lift, read, gets, and_then, ◌>>=◌,
}

-- The action keeps the property of the state, whether it returns or raises.
pub record Keeps {ℓ} {T R : Type ℓ} (P : T → Type ℓ) (action : Exec T R) : Type ℓ where
  pub at : (before : T) → P before → P (action before).1

module _ {ℓ} {T R : Type ℓ} {P : T → Type ℓ} where
  pub Keeps-if : (b : Bool) (x y : Exec T R) → Keeps P x → Keeps P y → Keeps P (if b then x else y)
  Keeps-if true x y kept _ = kept
  Keeps-if false x y _ kept = kept

  pub Keeps-lift : (answer : Result R) → Keeps P (lift answer)
  Keeps-lift answer = record { at = λ _ kept. kept }

  pub Keeps-query : (query : T → Result R) → Keeps P (read query)
  Keeps-query query = record { at = λ _ kept. kept }

  pub Keeps-gets : (query : T → R) → Keeps P (gets query)
  Keeps-gets query = record { at = λ _ kept. kept }

  pub Keeps-pure : (value : R) → Keeps P (pure value)
  Keeps-pure value = record { at = λ _ kept. kept }

module _ {ℓ} {T R Q : Type ℓ} {P : T → Type ℓ} (next : R → Exec T Q)
    (kept_by : (value : R) → Keeps P (next value)) where
  pub Keeps-and_then : (answer : Result R) (s : T) → P s → P (and_then next (answer, s)).1
  Keeps-and_then (ok value) s h = (kept_by value).at s h
  Keeps-and_then (err e) s h = h

-- An action and what is done with its value.
pub Keeps-bind {ℓ} :
    {T R Q : Type ℓ} {P : T → Type ℓ} (first : Exec T R) (next : R → Exec T Q)
    → Keeps P first
    → ((value : R) → Keeps P (next value))
    → Keeps P (first >>= next)
Keeps-bind first next h kept_by = record {
  at = λ s k. Keeps-and_then next kept_by (first s).0 (first s).1 (h.at s k);
}

pub Keeps-guard {ℓ} : {T : Type ℓ} {P : T → Type ℓ} (b : Bool) (e : Error) → Keeps P (guard b e)
Keeps-guard true e = record { at = λ _ kept. kept }
Keeps-guard false e = record { at = λ _ kept. kept }

-- A read, with what it found in the state.
pub Keeps-read {ℓ} :
    {T R Q : Type ℓ} {P : T → Type ℓ} (query : T → Result R) (next : R → Exec T Q)
    → ((value : R) (s : T) → query s ≡ ok value → P s → P (next value s).1)
    → Keeps P (read query >>= next)
Keeps-read {P = P} query next h = record { at = λ s k. go s k (query s) refl }
  where
    go : (s : _) → P s → (answer : Result _) → query s ≡ answer → P (and_then next (answer, s)).1
    go s k (ok value) e = h value s e k
    go s k (err e) _ = k

-- The same for a test that reads the state.
pub kept_if {ℓ} :
    {S A : Type ℓ} (P : S → Type ℓ) (b : Bool) (x y : Result A × S)
    → P x.1
    → P y.1
    → P (if b then x else y).1
kept_if P true x y h k = h
kept_if P false x y h k = k

pub ok_eq {ℓ} : {A : Type ℓ} {a b : A} → ok a ≡ ok b → a ≡ b
ok_eq h = cc

-- A chain that returned: its first action returned, and so did the rest.
pub and_then-ok {ℓ} :
    {S A B : Type ℓ} (f : A → Exec S B) (r : Result A) (s : S) {b : B}
    → (and_then f (r, s)).0 ≡ ok b
    → (a : A) × (r ≡ ok a) × ((f a s).0 ≡ ok b)
and_then-ok f (ok a) s h = (a, refl, h)
and_then-ok f (err e) s h = cc

-- An action that returns goes on with its value.
pub and_then-of_ok {ℓ} :
    {S A B : Type ℓ} (f : A → Exec S B) (x : Result A × S) {a : A}
    → x.0 ≡ ok a
    → and_then f x ≡ f a x.1
and_then-of_ok f (ok b, s) h = ap (λ c. f c s) (ok_eq h)
and_then-of_ok f (err e, s) h = cc

pub guard-ok {ℓ} :
    {S B : Type ℓ} (f : Unit → Exec S B) (b : Bool) (e : Error) (s : S) {c : B}
    → (and_then f (guard b e s)).0 ≡ ok c
    → (b ≡ true) × ((f tt s).0 ≡ ok c)
guard-ok f true e s h = (refl, h)
guard-ok f false e s h = cc

pub or_error-ok {ℓ} :
    {A : Type ℓ} (e : Error) (o : Option A) {a : A} → or_error e o ≡ ok a → o ≡ some a
or_error-ok e none h = cc
or_error-ok e (some x) h = cc

pub ruleset keeps_rules =
    (Keeps-pure, Keeps-lift, Keeps-query, Keeps-gets, Keeps-guard, Keeps-if, Keeps-bind)
