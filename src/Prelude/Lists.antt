-- ===== src/Prelude/Lists.antt =====
-- Lists as the rows of a table: queries, updates, and their laws.
use Prim.Native.Nat.{ℕ, suc, ◌+◌}
use mathlib.Core.Path.{◌≡◌, refl}
use mathlib.Core.Bool.{Bool, true, false, ◌&&◌, ◌||◌}
use mathlib.Core.Option.{Option, none, some}
use mathlib.Core.List.{List, [], ◌∷◌, ◌++◌, map}
use native.Mathlib.Omega.{arith}
use mathlib.Core.Path.{subst}
use mathlib.Core.Logic.{inl, inr}
use mathlib.Core.Bool.{or-true}
use aigov.Prelude.Tests.{if◌then◌else◌, Bool-cases}

module _ {ℓ} {A : Type ℓ} where
  abbrev pub length : List A → ℕ
  length [] = 0
  length (x ∷ xs) = suc (length xs)

  -- The first row that satisfies the condition: `db.scalar(select(T).where(...))`.
  abbrev pub find? : (A → Bool) → List A → Option A
  find? p [] = none
  find? p (x ∷ xs) = if p x then some x else find? p xs

  -- All rows that satisfy the condition, in order: `db.scalars(select(T).where(...))`.
  abbrev pub where_rows : (A → Bool) → List A → List A
  where_rows p [] = []
  where_rows p (x ∷ xs) = let rest = where_rows p xs in if p x then x ∷ rest else rest

  abbrev pub any_row : (A → Bool) → List A → Bool
  any_row p [] = false
  any_row p (x ∷ xs) = p x || any_row p xs

  abbrev pub all_rows : (A → Bool) → List A → Bool
  all_rows p [] = true
  all_rows p (x ∷ xs) = p x && all_rows p xs

  -- `update(T).where(p).values(f)`
  abbrev pub update_rows : (A → Bool) → (A → A) → List A → List A
  update_rows p f [] = []
  update_rows p f (x ∷ xs) = (if p x then f x else x) ∷ update_rows p f xs

  -- The rows of a join: for each row of one table, those that it meets in another.
  abbrev pub join_rows {κ} : {B : Type κ} → (A → List B) → List A → List B
  join_rows f [] = []
  join_rows f (x ∷ xs) = f x ++ join_rows f xs

  pub length-append : (xs ys : List A) → length (xs ++ ys) ≡ length xs + length ys
  length-append [] ys = omega arith
  length-append (x ∷ xs) ys = omega (arith, length-append xs ys)

  -- An update that no row satisfies changes nothing.
  pub update_rows-of_none :
      (p : A → Bool) (f : A → A) (xs : List A) → any_row p xs ≡ false → update_rows p f xs ≡ xs
  update_rows-of_none p f [] h = refl
  update_rows-of_none p f (x ∷ xs) h = ground (arith, update_rows-of_none p f xs)

  abbrev pub All {κ} : (A → Type κ) → List A → Type κ
  All P [] = Unit
  All P (x ∷ xs) = P x × All P xs

  -- An update turns a property of the rows into another, when it does so for the rows that it
  -- changes and for those that it leaves.
  pub All-update_rows {κ μ} :
      (P : A → Type κ) (Q : A → Type μ) (p : A → Bool) (f : A → A)
      → ((a : A) → p a ≡ true → P a → Q (f a))
      → ((a : A) → p a ≡ false → P a → Q a)
      → (xs : List A) → All P xs
      → All Q (update_rows p f xs)
  All-update_rows P Q p f changed left [] h = tt
  All-update_rows P Q p f changed left (x ∷ xs) h =
      (step (p x) refl, All-update_rows P Q p f changed left xs h.1)
    where
      step : (b : Bool) → p x ≡ b → Q (if b then f x else x)
      step true e = changed x e h.0
      step false e = left x e h.0

  pub All-map {κ μ} :
      (P : A → Type κ) (Q : A → Type μ)
      → ((a : A) → P a → Q a)
      → (xs : List A) → All P xs
      → All Q xs
  All-map P Q f [] h = tt
  All-map P Q f (x ∷ xs) h = (f x h.0, All-map P Q f xs h.1)

  pub All-both {κ μ} :
      (P : A → Type κ) (Q : A → Type μ) (xs : List A)
      → All P xs
      → All Q xs
      → All (λ a. P a × Q a) xs
  All-both P Q [] h k = tt
  All-both P Q (x ∷ xs) h k = ((h.0, k.0), All-both P Q xs h.1 k.1)

  pub some_eq : {a b : A} → some a ≡ some b → a ≡ b
  some_eq h = cc

  -- A row that a query found satisfies its condition.
  pub find?-holds : (p : A → Bool) (rows : List A) (a : A) → find? p rows ≡ some a → p a ≡ true
  find?-holds p [] a h = cc
  find?-holds p (x ∷ rows) a h = elim (Bool-cases (p x)) [
    | inl hit ↦ subst (λ b. p b ≡ true) (some_eq (rw hit at h)) hit
    | inr miss ↦ find?-holds p rows a (rw miss at h)
  ]

  pub any_row-last :
      (p : A → Bool) (rows : List A) (a : A) → p a ≡ true → any_row p (rows ++ a ∷ []) ≡ true
  any_row-last p [] a h = rw h
  any_row-last p (x ∷ rows) a h = rw (any_row-last p rows a h) (or-true (p x))

  pub any_row-append :
      (p : A → Bool) (rows : List A) (ys : List A)
      → any_row p (rows ++ ys) ≡ any_row p rows || any_row p ys
  any_row-append p [] ys = refl
  any_row-append p (x ∷ rows) ys = ground (arith, any_row-append p rows ys)

  pub All-append {κ} : (P : A → Type κ) (xs ys : List A) → All P xs → All P ys → All P (xs ++ ys)
  All-append P [] ys h k = k
  All-append P (x ∷ xs) ys h k = (h.0, All-append P xs ys h.1 k)

  pub All-where_rows {κ} :
      (P : A → Type κ) (p : A → Bool) (rows : List A) → All P rows → All P (where_rows p rows)
  All-where_rows P p [] h = tt
  All-where_rows P p (x ∷ rows) h = elim (Bool-cases (p x)) [
    | inl hit ↦ rw hit (h.0, All-where_rows P p rows h.1)
    | inr miss ↦ rw miss (All-where_rows P p rows h.1)
  ]

-- What holds of each row that a row meets holds of the join.
pub All-join_rows {ℓ κ μ ν} :
    {A : Type ℓ} {B : Type κ} (P : A → Type μ) (Q : B → Type ν) (f : A → List B)
    → ((a : A) → P a → All Q (f a))
    → (rows : List A) → All P rows
    → All Q (join_rows f rows)
All-join_rows P Q f h [] all = tt
All-join_rows P Q f h (x ∷ rows) all =
    All-append Q (f x) (join_rows f rows) (h x all.0) (All-join_rows P Q f h rows all.1)

-- What holds of each image holds of the mapped list.
pub All-of_map {ℓ κ μ} :
    {A : Type ℓ} {B : Type κ} (P : B → Type μ) (f : A → B)
    → ((a : A) → P (f a))
    → (rows : List A) → All P (map f rows)
All-of_map P f h [] = tt
All-of_map P f h (x ∷ rows) = (h x, All-of_map P f h rows)
