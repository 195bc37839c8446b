-- ===== src/Prelude/Search.antt =====
-- Whether a row meets a condition: how the test goes through queries, joins and groups.
use mathlib.Core.Path.{◌≡◌, refl, ap, ◌∙◌, fun_ext}
use mathlib.Core.Logic.{inl, inr}
use mathlib.Core.Bool.{Bool, true, false, not, ◌&&◌, ◌||◌}
use mathlib.Core.List.{List, [], ◌∷◌, map}
use native.Mathlib.Omega.{arith}
use aigov.Prelude.Tests.{Eq, ◌==◌, Bool-cases}
use aigov.Prelude.Lists.{any_row, any_row-append, where_rows, join_rows}
use aigov.Prelude.Dicts.{append_at, group_onto, group_by, is_empty, same_key}

module _ {ℓ} {A : Type ℓ} where
  pub any_row-congr :
      (p q : A → Bool) (rows : List A) → ((r : A) → p r ≡ q r) → any_row p rows ≡ any_row q rows
  any_row-congr p q rows h = ap (λ (t : A → Bool). any_row t rows) (fun_ext h)

  pub any_row-where_rows :
      (p q : A → Bool) (rows : List A)
      → any_row p (where_rows q rows) ≡ any_row (λ r. q r && p r) rows
  any_row-where_rows p q [] = refl
  any_row-where_rows p q (r ∷ rows) = ground (arith, any_row-where_rows p q rows)

  pub any_row-and :
      (p : A → Bool) (b : Bool) (rows : List A)
      → any_row (λ r. p r && b) rows ≡ (any_row p rows && b)
  any_row-and p true [] = refl
  any_row-and p false [] = refl
  any_row-and p b (r ∷ rows) = ground (arith, any_row-and p b rows)

  -- Nothing is found by a condition that is stronger than one by which nothing is found.
  pub any_row-weaker :
      (p q : A → Bool) (rows : List A)
      → any_row q rows ≡ false
      → any_row (λ r. p r && q r) rows ≡ false
  any_row-weaker p q [] h = refl
  any_row-weaker p q (r ∷ rows) h = ground (arith, any_row-weaker p q rows)

  pub any_row-narrower :
      (p q : A → Bool) (rows : List A)
      → any_row p rows ≡ false
      → any_row (λ r. p r && q r) rows ≡ false
  any_row-narrower p q [] h = refl
  any_row-narrower p q (r ∷ rows) h = ground (arith, any_row-narrower p q rows)

  pub any_row-or :
      (p q : A → Bool) (rows : List A)
      → any_row (λ r. p r || q r) rows ≡ (any_row p rows || any_row q rows)
  any_row-or p q [] = refl
  any_row-or p q (r ∷ rows) = ground (arith, any_row-or p q rows)

  pub any_row-never : (rows : List A) → any_row (λ _. false) rows ≡ false
  any_row-never [] = refl
  any_row-never (r ∷ rows) = any_row-never rows

  pub is_empty-where_rows :
      (p : A → Bool) (rows : List A) → is_empty (where_rows p rows) ≡ not (any_row p rows)
  is_empty-where_rows p [] = refl
  is_empty-where_rows p (r ∷ rows) = ground (arith, is_empty-where_rows p rows)

module _ {ℓ κ} {A : Type ℓ} {B : Type κ} where
  pub any_row-map :
      (p : B → Bool) (f : A → B) (rows : List A)
      → any_row p (map f rows) ≡ any_row (λ r. p (f r)) rows
  any_row-map p f [] = refl
  any_row-map p f (r ∷ rows) = rw (any_row-map p f rows)

  pub any_row-join_rows :
      (p : B → Bool) (f : A → List B) (rows : List A)
      → any_row p (join_rows f rows) ≡ any_row (λ r. any_row p (f r)) rows
  any_row-join_rows p f [] = refl
  any_row-join_rows p f (r ∷ rows) =
      any_row-append p (f r) (join_rows f rows) ∙ rw (any_row-join_rows p f rows)

module _ {ℓ κ} {K : Type ℓ} {V : Type κ} ⦃e : Eq K⦄ (k : K) where
  any_row-append_at :
      (l : K) (v : V) (d : List (K × List V))
      → any_row (λ entry. entry.0 == k) (append_at l v d)
        ≡ (any_row (λ entry. entry.0 == k) d || (l == k))
  any_row-append_at l v [] = ground arith
  any_row-append_at l v ((m, vs) ∷ d) = elim (Bool-cases (m == l)) [
    | inl h ↦ rw (h, same_key {k = m} {l = l} h) (ground arith)
    | inr h ↦ rw h (ground (arith, any_row-append_at l v d))
  ]

  any_row-group_onto :
      (key : V → K) (d : List (K × List V)) (rows : List V)
      → any_row (λ entry. entry.0 == k) (group_onto key d rows)
        ≡ (any_row (λ entry. entry.0 == k) d || any_row (λ v. key v == k) rows)
  any_row-group_onto key d [] = ground arith
  any_row-group_onto key d (v ∷ rows) =
      ground
        (arith, any_row-group_onto key (append_at (key v) v d) rows, any_row-append_at (key v) v d)

  -- A key has a group exactly when a row has the key.
  pub any_row-group_by :
      (key : V → K) (rows : List V)
      → any_row (λ entry. entry.0 == k) (group_by key rows) ≡ any_row (λ v. key v == k) rows
  any_row-group_by key rows = any_row-group_onto key [] rows
