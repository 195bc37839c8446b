-- ===== src/Prelude/Tests.antt =====
-- Boolean tests, the conditional, and Python's `==` as a class with its law.
use Prim.Native.Nat.{ℕ, ◌<◌, compare, Ordering}
use mathlib.Core.Path.{◌≡◌, refl, ap}
use mathlib.Core.Logic.{◌↔◌, ◌⊎◌, inl, inr}
use mathlib.Core.Bool.{Bool, true, false}
use mathlib.Core.Option.{Option, none, some}
use Prim.Native.String.{String}
use text.Mathlib.Text.{◌==◌ as str_eq}
use text.Mathlib.TextEquality.{eq_iff}
use native.Mathlib.Omega.{arith}

abbrev pub ltb : ℕ → ℕ → Bool
ltb a b = elim (compare a b) [ Ordering.lt ↦ true | _ ↦ false ]

abbrev pub leb : ℕ → ℕ → Bool
leb a b = elim (compare a b) [ Ordering.gt ↦ false | _ ↦ true ]

abbrev pub nat_beq : ℕ → ℕ → Bool
nat_beq a b = elim (compare a b) [ Ordering.eq ↦ true | _ ↦ false ]

infix 1 if◌then◌else◌
abbrev pub if◌then◌else◌ {ℓ} : {A : Type ℓ} → Bool → A → A → A
if true then x else y = x
if false then x else y = y

pub record Eq {ℓ} (A : Type ℓ) : Type ℓ where
  pub beq : A → A → Bool
  pub beq_iff : (x y : A) → (beq x y ≡ true) ↔ (x ≡ y)

-- `x is None` and `x is not None`
module _ {ℓ} {A : Type ℓ} where
  abbrev pub is_none : Option A → Bool
  is_none none = true
  is_none (some a) = false

  abbrev pub is_some : Option A → Bool
  is_some none = false
  is_some (some a) = true

infix 50 ◌==◌
abbrev pub ◌==◌ {ℓ} : {A : Type ℓ} ⦃e : Eq A⦄ → A → A → Bool
◌==◌ ⦃e⦄ = e.beq

pub nat_beq_iff : (a b : ℕ) → (nat_beq a b ≡ true) ↔ (a ≡ b)
nat_beq_iff a b = ground arith

instance abbrev pub nat_eq : Eq ℕ
nat_eq = record { beq = nat_beq; beq_iff = nat_beq_iff }

-- An enum compares by the positions of its members.
pub code_beq_iff :
    {A : Type 0} (code : A → ℕ) (injective : (a b : A) → code a ≡ code b → a ≡ b) (a b : A)
    → (nat_beq (code a) (code b) ≡ true) ↔ (a ≡ b)
code_beq_iff code injective a b =
    (λ h. injective a b ((nat_beq_iff _ _).0 h), λ h. (nat_beq_iff _ _).1 (ap code h))

abbrev pub enum_eq : {A : Type 0} (code : A → ℕ) → ((a b : A) → code a ≡ code b → a ≡ b) → Eq A
enum_eq code injective = record {
  beq = λ a b. nat_beq (code a) (code b);
  beq_iff = code_beq_iff code injective;
}

-- `column == value` in a query, for a nullable column: NULL equals nothing.
abbrev pub holds {ℓ} : {A : Type ℓ} ⦃e : Eq A⦄ → Option A → A → Bool
holds none a = false
holds (some b) a = b == a

pub ltb→lt : (a b : ℕ) → ltb a b ≡ true → a < b
ltb→lt a b h = ground arith

pub lt→ltb : (a b : ℕ) → a < b → ltb a b ≡ true
lt→ltb a b h = ground arith

pub Bool-cases : (b : Bool) → (b ≡ true) ⊎ (b ≡ false)
Bool-cases true = inl refl
Bool-cases false = inr refl

pub Option-cases {ℓ} : {A : Type ℓ} (o : Option A) → (o ≡ none) ⊎ ((a : A) × (o ≡ some a))
Option-cases none = inl refl
Option-cases (some a) = inr (a, refl)

instance abbrev pub string_eq : Eq String
string_eq = record { beq = str_eq; beq_iff = eq_iff }
