-- ===== src/Prelude/Keys.antt =====
-- Tables with a primary key, and what an update leaves to be found.
use Prim.Native.Nat.{ℕ}
use mathlib.Core.Path.{ap, ◌≡◌, refl, subst}
use mathlib.Core.Logic.{inl, inr}
use mathlib.Core.Bool.{Bool, true, false}
use mathlib.Core.Option.{Option, none, some}
use mathlib.Core.List.{List, [], ◌∷◌}
use native.Mathlib.Omega.{arith}
use aigov.Prelude.Tests.{◌==◌, nat_eq, Bool-cases, if◌then◌else◌}
use aigov.Prelude.Lists.{All, All-map, any_row, find?, update_rows, some_eq}

pub beq_flip : (a b : ℕ) → (a == b) ≡ false → (b == a) ≡ false
beq_flip a b h = ground arith

module _ {ℓ} {A : Type ℓ} (id : A → ℕ) where
  -- No two rows have the same key.
  abbrev pub IsKeyedBy : List A → Type 0
  IsKeyedBy [] = Unit
  IsKeyedBy (r ∷ rows) = All (λ s. (id s == id r) ≡ false) rows × IsKeyedBy rows

module _ {ℓ} {A : Type ℓ} (id : A → ℕ) (q : A → Bool) (i : ℕ)
    (keyed : (r : A) → q r ≡ true → (id r == i) ≡ true) where
  key_taken :
      (r : A) (rows : List A)
      → All (λ s. (id s == id r) ≡ false) rows
      → any_row q rows ≡ true
      → (id r == i) ≡ false
  key_taken r [] h a = cc
  key_taken r (s ∷ rows) h a = elim (Bool-cases (q s)) [
    | inl hit ↦ let same = keyed s hit in ground arith
    | inr miss ↦ key_taken r rows h.1 (rw miss at a)
  ]

  -- If a row with the key satisfies a condition, then no row that fails it has the key.
  pub sole_row :
      (rows : List A)
      → IsKeyedBy id rows
      → any_row q rows ≡ true
      → All (λ r. q r ≡ false → (id r == i) ≡ false) rows
  sole_row [] k a = tt
  sole_row (r ∷ rows) k a = elim (Bool-cases (q r)) [
    | inl hit ↦ (λ miss. cc, let same = keyed r hit in All-map _ _ (λ s e _. ground arith) rows k.0)
    | inr miss ↦ (λ _. key_taken r rows k.0 (rw miss at a), sole_row rows k.1 (rw miss at a))
  ]

module _ {ℓ} {A : Type ℓ} where
  pub All-find? {κ} :
      (P : A → Type κ) (p : A → Bool) (rows : List A) {r : A}
      → All P rows
      → find? p rows ≡ some r
      → P r
  All-find? P p [] h e = cc
  All-find? P p (x ∷ rows) h e = elim (Bool-cases (p x)) [
    | inl hit ↦ subst P (some_eq (rw hit at e)) h.0
    | inr miss ↦ All-find? P p rows h.1 (rw miss at e)
  ]

  abbrev pub updated_row : (A → Bool) → (A → A) → Option A → Option A
  updated_row q f none = none
  updated_row q f (some r) = some (if q r then f r else r)

  -- An update that does not touch what a query asks for commutes with it.
  pub find?-update_rows :
      (p q : A → Bool) (f : A → A)
      → ((r : A) → p (f r) ≡ p r)
      → (rows : List A) → find? p (update_rows q f rows) ≡ updated_row q f (find? p rows)
  find?-update_rows p q f keep [] = refl
  find?-update_rows p q f keep (r ∷ rows) =
      let rest = find?-update_rows p q f keep rows in
      elim (Bool-cases (q r)) [
        | inl h ↦ elim (Bool-cases (p r)) [
          | inl k ↦ rw (h, keep r, k, h)
          | inr k ↦ rw (h, keep r, k) rest
        ]
        | inr h ↦ elim (Bool-cases (p r)) [ inl k ↦ rw (h, k, h) | inr k ↦ rw (h, k) rest ]
      ]

  pub any_row-of_All :
      (p : A → Bool) (rows : List A) → All (λ r. p r ≡ false) rows → any_row p rows ≡ false
  any_row-of_All p [] h = refl
  any_row-of_All p (r ∷ rows) h = rw h.0 (any_row-of_All p rows h.1)

-- A row that any query has found is found by its key.
pub find?-by_key {ℓ} :
    {A : Type ℓ} (id : A → ℕ) (q : A → Bool) (rows : List A) {a : A}
    → IsKeyedBy id rows
    → find? q rows ≡ some a
    → find? (λ r. id r == id a) rows ≡ some a
find?-by_key id q [] k e = cc
find?-by_key id q (x ∷ rows) {a = a} k e = elim (Bool-cases (q x)) [
  | inl hit ↦
      let same = some_eq (rw hit at e) in
      rw (ap id same, (nat_eq.beq_iff (id a) (id a)).1 refl) (ap some same)
  | inr miss ↦
      let rest = find?-by_key id q rows k.1 (rw miss at e) in
      let other : (id x == id a) ≡ false =
        beq_flip (id a) (id x)
          (All-find? (λ s. (id s == id x) ≡ false) q rows k.0 (rw miss at e)) in
      rw other rest
]
