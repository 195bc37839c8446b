-- ===== src/Review/InOrder.antt =====
-- The order of the queue of `list_review_queue` (app/services/assessment_review_service.py).
use aigov.Prelude.{
  All, All-map, Bool, Bool-cases, List, Option, [], arith, inl, inr, insert_by, is_some, leb,
  nat_eq, none, not, order_by, some, sorted, true, where_rows, ℕ, ◌++◌, ◌∷◌, ◌≡◌, ◌≤◌,
}
use aigov.Review.Queue.{ReviewQueueEntry, by_submission, instant_of}
use native.Mathlib.Nat.{le_trans}

-- An instant is before another or at it, or the other is not known.
abbrev pub IsNoLater : Option ℕ → Option ℕ → Type 0
IsNoLater s none = Unit
IsNoLater none (some t) = ⊥
IsNoLater (some s) (some t) = s ≤ t

-- No entry comes before one that was submitted earlier, and those without an instant come last.
abbrev pub AreInOrder : List ReviewQueueEntry → Type 0
AreInOrder [] = Unit
AreInOrder (e ∷ rest) =
    (All (λ later. IsNoLater e.submitted_at later.submitted_at) rest) × AreInOrder rest

module _ (column : ReviewQueueEntry → ℕ) where
  abbrev IsSortedBy : List ReviewQueueEntry → Type 0
  IsSortedBy [] = Unit
  IsSortedBy (e ∷ rest) = (All (λ later. column e ≤ column later) rest) × IsSortedBy rest

  All-insert_by :
      (P : ReviewQueueEntry → Type 0) (e : ReviewQueueEntry) (rows : List ReviewQueueEntry)
      → P e
      → All P rows
      → All P (insert_by column e rows)
  All-insert_by P e [] h k = (h, tt)
  All-insert_by P e (r ∷ rows) h k = elim (Bool-cases (leb (column e) (column r))) [
    | inl first ↦ rw first (h, k)
    | inr later ↦ rw later (k.0, All-insert_by P e rows h k.1)
  ]

  insert_by-IsSortedBy :
      (e : ReviewQueueEntry) (rows : List ReviewQueueEntry)
      → IsSortedBy rows
      → IsSortedBy (insert_by column e rows)
  insert_by-IsSortedBy e [] h = (tt, tt)
  insert_by-IsSortedBy e (r ∷ rows) h = elim (Bool-cases (leb (column e) (column r))) [
    | inl first ↦
        let le : column e ≤ column r = ground arith in
        rw first ((le, All-map _ _ (λ x k. le_trans le k) rows h.0), h)
    | inr later ↦ rw later (
      All-insert_by (λ x. column r ≤ column x) e rows (ground arith) h.0,
      insert_by-IsSortedBy e rows h.1,
    )
  ]

  order_by-IsSortedBy : (rows : List ReviewQueueEntry) → IsSortedBy (order_by column rows)
  order_by-IsSortedBy [] = tt
  order_by-IsSortedBy (e ∷ rows) =
      insert_by-IsSortedBy e (order_by column rows) (order_by-IsSortedBy rows)

  All-order_by :
      (P : ReviewQueueEntry → Type 0) (rows : List ReviewQueueEntry)
      → All P rows
      → All P (order_by column rows)
  All-order_by P [] h = tt
  All-order_by P (e ∷ rows) h =
      All-insert_by P e (order_by column rows) h.0 (All-order_by P rows h.1)

All-where_rows_of :
    (q : ReviewQueueEntry → Bool) (rows : List ReviewQueueEntry)
    → All (λ e. q e ≡ true) (where_rows q rows)
All-where_rows_of q [] = tt
All-where_rows_of q (e ∷ rows) = elim (Bool-cases (q e)) [
  | inl hit ↦ rw hit (hit, All-where_rows_of q rows)
  | inr miss ↦ rw miss (All-where_rows_of q rows)
]

dated-IsNoLater :
    (s t : Option ℕ)
    → is_some s ≡ true
    → is_some t ≡ true
    → instant_of s ≤ instant_of t
    → IsNoLater s t
dated-IsNoLater none t h k le = cc
dated-IsNoLater (some s) none h k le = cc
dated-IsNoLater (some s) (some t) h k le = le

undated_last-IsNoLater : (s t : Option ℕ) → not (is_some t) ≡ true → IsNoLater s t
undated_last-IsNoLater s none h = tt
undated_last-IsNoLater s (some t) h = cc

undated-AreInOrder :
    (rows : List ReviewQueueEntry)
    → All (λ e. not (is_some e.submitted_at) ≡ true) rows
    → AreInOrder rows
undated-AreInOrder [] h = tt
undated-AreInOrder (e ∷ rows) h = (
  All-map _ _ (λ later k. undated_last-IsNoLater e.submitted_at later.submitted_at k) rows h.1,
  undated-AreInOrder rows h.1,
)

All-both :
    (P : ReviewQueueEntry → Type 0) (xs ys : List ReviewQueueEntry)
    → All P xs
    → All P ys
    → All P (xs ++ ys)
All-both P [] ys h k = k
All-both P (x ∷ xs) ys h k = (h.0, All-both P xs ys h.1 k)

All-with :
    (P Q R : ReviewQueueEntry → Type 0)
    → ((e : ReviewQueueEntry) → P e → Q e → R e)
    → (rows : List ReviewQueueEntry) → All P rows
    → All Q rows
    → All R rows
All-with P Q R f [] h k = tt
All-with P Q R f (e ∷ rows) h k = (f e h.0 k.0, All-with P Q R f rows h.1 k.1)

parts-AreInOrder :
    (dated undated : List ReviewQueueEntry)
    → IsSortedBy (λ e. instant_of e.submitted_at) dated
    → All (λ e. is_some e.submitted_at ≡ true) dated
    → All (λ e. not (is_some e.submitted_at) ≡ true) undated
    → AreInOrder (dated ++ undated)
parts-AreInOrder [] undated sorted all_dated all_undated = undated-AreInOrder undated all_undated
parts-AreInOrder (e ∷ dated) undated sorted all_dated all_undated =
    let follows : ReviewQueueEntry → Type 0 =
      λ later. IsNoLater e.submitted_at later.submitted_at in
    let follow_dated : All follows dated =
      All-with (λ later. is_some later.submitted_at ≡ true)
        (λ later. instant_of e.submitted_at ≤ instant_of later.submitted_at) follows
        (λ later k le. dated-IsNoLater e.submitted_at later.submitted_at all_dated.0 k le) dated
        all_dated.1 sorted.0 in
    let follow_undated : All follows undated =
      All-map (λ later. not (is_some later.submitted_at) ≡ true) follows
        (λ later k. undated_last-IsNoLater e.submitted_at later.submitted_at k) undated
        all_undated in
    (
      All-both follows dated undated follow_dated follow_undated,
      parts-AreInOrder dated undated sorted.1 all_dated.1 all_undated,
    )

pub by_submission-AreInOrder :
    (entries : List ReviewQueueEntry) → AreInOrder (by_submission entries)
by_submission-AreInOrder entries =
    let is_dated : ReviewQueueEntry → Bool = λ e. is_some e.submitted_at in
    parts-AreInOrder (order_by (λ e. instant_of e.submitted_at) (where_rows is_dated entries))
      (where_rows (λ e. not (is_dated e)) entries)
      (order_by-IsSortedBy (λ e. instant_of e.submitted_at) (where_rows is_dated entries))
      (All-order_by (λ e. instant_of e.submitted_at) (λ e. is_dated e ≡ true)
        (where_rows is_dated entries) (All-where_rows_of is_dated entries))
      (All-where_rows_of (λ e. not (is_dated e)) entries)
