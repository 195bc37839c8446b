-- ===== src/Prelude/Dicts.antt =====
-- Python's dictionaries, as lists of entries in the order of insertion, and rows grouped by a key.
use mathlib.Core.Path.{subst, ◌≡◌, refl, sym, ◌∙◌}
use mathlib.Core.Logic.{inl, inr}
use mathlib.Core.Bool.{Bool, true, false, ◌&&◌}
use mathlib.Core.Logic.{◌↔◌}
use mathlib.Core.Option.{Option, none, some}
use mathlib.Core.List.{List, [], ◌∷◌, ◌++◌, append_assoc, append-nil}
use native.Mathlib.Omega.{arith}
use aigov.Prelude.Tests.{◌==◌, Eq, Bool-cases, if◌then◌else◌}
use aigov.Prelude.Lists.{
  All, All-map, All-both, any_row, where_rows, length, some_eq, length-append,
}

pub beq_refl {ℓ} : {A : Type ℓ} ⦃e : Eq A⦄ (a : A) → (a == a) ≡ true
beq_refl ⦃e⦄ a = (e.beq_iff a a).1 refl

module _ {ℓ} {K : Type ℓ} ⦃e : Eq K⦄ where
  pub same_key : {k l : K} → (k == l) ≡ true → k ≡ l
  same_key h = (e.beq_iff _ _).0 h

  -- Two keys that differ are not both equal to a third.
  pub other_key : (k l m : K) → (m == l) ≡ false → (m == k) ≡ true → (l == k) ≡ false
  other_key k l m h hit = elim (Bool-cases (l == k)) [
    | inl same ↦
        let meet : m ≡ l = same_key hit ∙ sym (same_key same) in cc ((e.beq_iff m l).1 meet)
    | inr miss ↦ miss
  ]

module _ {ℓ κ} {K : Type ℓ} {V : Type κ} ⦃e : Eq K⦄ where
  -- `d.get(k)`
  abbrev pub get_key : K → List (K × V) → Option V
  get_key k [] = none
  get_key k ((l, v) ∷ d) = if l == k then some v else get_key k d

  -- `d.get(k, [])`
  abbrev pub get_group : K → List (K × List V) → List V
  get_group k [] = []
  get_group k ((l, vs) ∷ d) = if l == k then vs else get_group k d

  -- `d.setdefault(k, []).append(v)`
  abbrev pub append_at : K → V → List (K × List V) → List (K × List V)
  append_at k v [] = (k, v ∷ []) ∷ []
  append_at k v ((l, vs) ∷ d) =
      let rest = append_at k v d in if l == k then (l, vs ++ v ∷ []) ∷ d else (l, vs) ∷ rest

  -- `for v in rows: d.setdefault(key(v), []).append(v)`
  abbrev pub group_onto : (V → K) → List (K × List V) → List V → List (K × List V)
  group_onto key d [] = d
  group_onto key d (v ∷ rows) = group_onto key (append_at (key v) v d) rows

  abbrev pub group_by : (V → K) → List V → List (K × List V)
  group_by key rows = group_onto key [] rows

  -- The entries have different keys.
  abbrev pub HasDistinctKeys : List (K × List V) → Type 0
  HasDistinctKeys [] = Unit
  HasDistinctKeys (entry ∷ d) = All (λ other. (other.0 == entry.0) ≡ false) d × HasDistinctKeys d

  abbrev pub IsFilled : List (K × List V) → Type 0
  IsFilled d = All (λ entry. (length entry.1 ≡ 0) → ⊥) d

  -- What a key gets after an addition.
  get_group-append_at :
      (k l : K) (v : V) (d : List (K × List V))
      → get_group k (append_at l v d) ≡ (if l == k then get_group k d ++ v ∷ [] else get_group k d)
  get_group-append_at k l v [] = refl
  get_group-append_at k l v ((m, vs) ∷ d) = elim (Bool-cases (m == l)) [
    | inl h ↦
        rw (h, same_key {k = m} {l = l} h)
          (elim (Bool-cases (l == k)) [ inl i ↦ rw i | inr i ↦ rw i ])
    | inr h ↦ elim (Bool-cases (m == k)) [
      | inl i ↦ rw (h, i, other_key k l m h i)
      | inr i ↦ rw (h, i) (get_group-append_at k l v d)
    ]
  ]

  -- A key gets the rows that have it, in their order.
  get_group-group_onto :
      (key : V → K) (k : K) (d : List (K × List V)) (rows : List V)
      → get_group k (group_onto key d rows) ≡ get_group k d ++ where_rows (λ v. key v == k) rows
  get_group-group_onto key k d [] = sym (append-nil _)
  get_group-group_onto key k d (v ∷ rows) =
      get_group-group_onto key k (append_at (key v) v d) rows
      ∙ rw (get_group-append_at k (key v) v d) (elim (Bool-cases (key v == k)) [
        | inl h ↦ rw h (append_assoc (get_group k d) (v ∷ []) (where_rows (λ w. key w == k) rows))
        | inr h ↦ rw h
      ])

  pub get_group-group_by :
      (key : V → K) (k : K) (rows : List V)
      → get_group k (group_by key rows) ≡ where_rows (λ v. key v == k) rows
  get_group-group_by key k rows = get_group-group_onto key k [] rows

  All-append_at :
      (k l : K) (v : V) (d : List (K × List V))
      → (l == k) ≡ false
      → All (λ entry. (entry.0 == k) ≡ false) d
      → All (λ entry. (entry.0 == k) ≡ false) (append_at l v d)
  All-append_at k l v [] h all = (h, tt)
  All-append_at k l v ((m, vs) ∷ d) h all = elim (Bool-cases (m == l)) [
    | inl i ↦ rw i all
    | inr i ↦ rw i (all.0, All-append_at k l v d h all.1)
  ]

  HasDistinctKeys-append_at :
      (l : K) (v : V) (d : List (K × List V))
      → HasDistinctKeys d
      → HasDistinctKeys (append_at l v d)
  HasDistinctKeys-append_at l v [] h = (tt, tt)
  HasDistinctKeys-append_at l v ((m, vs) ∷ d) h = elim (Bool-cases (m == l)) [
    | inl i ↦ rw i h
    | inr i ↦ rw i (
      All-append_at m l v d
          (elim (Bool-cases (l == m)) [
            | inl same ↦ cc ((e.beq_iff m l).1 (sym (same_key same)))
            | inr other ↦ other
          ])
          h.0,
      HasDistinctKeys-append_at l v d h.1,
    )
  ]

  IsFilled-append_at :
      (l : K) (v : V) (d : List (K × List V)) → IsFilled d → IsFilled (append_at l v d)
  IsFilled-append_at l v [] h = (λ empty. omega arith, tt)
  IsFilled-append_at l v ((m, vs) ∷ d) h = elim (Bool-cases (m == l)) [
    | inl i ↦ rw i (λ empty. omega (arith, length-append vs (v ∷ [])), h.1)
    | inr i ↦ rw i (h.0, IsFilled-append_at l v d h.1)
  ]

  -- Grouping keeps the keys apart, and gives no empty group.
  pub HasDistinctKeys-group_onto :
      (key : V → K) (d : List (K × List V)) (rows : List V)
      → HasDistinctKeys d
      → HasDistinctKeys (group_onto key d rows)
  HasDistinctKeys-group_onto key d [] h = h
  HasDistinctKeys-group_onto key d (v ∷ rows) h =
      HasDistinctKeys-group_onto key (append_at (key v) v d) rows
        (HasDistinctKeys-append_at (key v) v d h)

  pub IsFilled-group_onto :
      (key : V → K) (d : List (K × List V)) (rows : List V)
      → IsFilled d
      → IsFilled (group_onto key d rows)
  IsFilled-group_onto key d [] h = h
  IsFilled-group_onto key d (v ∷ rows) h =
      IsFilled-group_onto key (append_at (key v) v d) rows (IsFilled-append_at (key v) v d h)

  -- An entry is what its key gets.
  All-get_group :
      (d : List (K × List V)) → HasDistinctKeys d → All (λ entry. entry.1 ≡ get_group entry.0 d) d
  All-get_group [] h = tt
  All-get_group ((m, vs) ∷ d) h = (
    rw (beq_refl m),
    All-map {A = K × List V} (λ entry. ((entry.0 == m) ≡ false) × (entry.1 ≡ get_group entry.0 d))
        (λ entry. entry.1 ≡ get_group entry.0 ((m, vs) ∷ d))
        (λ entry both. rw (apart entry.0 m both.0) both.1) d
        (All-both _ _ d h.0 (All-get_group d h.1)),
  )
    where
      apart : (k m : K) → (k == m) ≡ false → (m == k) ≡ false
      apart k m h = elim (Bool-cases (m == k)) [
        | inl same ↦ cc ((e.beq_iff k m).1 (sym (same_key same)))
        | inr other ↦ other
      ]

  -- Each group holds the rows that have its key, in their order, and is not empty.
  pub All-group_by :
      (key : V → K) (rows : List V)
      → All
          (λ entry.
            (entry.1 ≡ where_rows (λ v. key v == entry.0) rows) × ((length entry.1 ≡ 0) → ⊥))
          (group_by key rows)
  All-group_by key rows =
      All-both _ _ (group_by key rows)
        (All-map {A = K × List V} (λ entry. entry.1 ≡ get_group entry.0 (group_by key rows))
          (λ entry. entry.1 ≡ where_rows (λ v. key v == entry.0) rows)
          (λ entry is_group. is_group ∙ get_group-group_by key entry.0 rows) (group_by key rows)
          (All-get_group (group_by key rows) (HasDistinctKeys-group_onto key [] rows tt)))
        (IsFilled-group_onto key [] rows tt)

module _ {ℓ κ} {K : Type ℓ} {V : Type κ} ⦃e : Eq K⦄ where
  -- `d[k] = v`
  abbrev pub set_key : K → V → List (K × V) → List (K × V)
  set_key k v [] = (k, v) ∷ []
  set_key k v ((l, w) ∷ d) =
      let later = set_key k v d in if l == k then (l, v) ∷ d else (l, w) ∷ later

  -- `dict(pairs)`, onto what is there.
  abbrev pub dict_onto : List (K × V) → List (K × V) → List (K × V)
  dict_onto d [] = d
  dict_onto d (pair ∷ pairs) = dict_onto (set_key pair.0 pair.1 d) pairs

-- What holds of each entry holds of the value that a key has.
pub All-get_key {ℓ κ μ} :
    {K : Type ℓ} {V : Type κ} ⦃e : Eq K⦄ (P : K → V → Type μ) (k : K) (d : List (K × V)) {v : V}
    → All (λ entry. P entry.0 entry.1) d
    → get_key k d ≡ some v
    → P k v
All-get_key P k [] all h = cc
All-get_key P k ((l, w) ∷ d) all h = elim (Bool-cases (l == k)) [
  | inl hit ↦ subst (P k) (some_eq (rw hit at h)) (subst (λ j. P j w) (same_key hit) all.0)
  | inr miss ↦ All-get_key P k d all.1 (rw miss at h)
]

-- `k in xs`
abbrev pub contains {ℓ} : {A : Type ℓ} ⦃e : Eq A⦄ → A → List A → Bool
contains a rows = any_row (λ b. b == a) rows

abbrev pub is_empty {ℓ} : {A : Type ℓ} → List A → Bool
is_empty [] = true
is_empty (a ∷ rows) = false

-- Tuples compare component by component.
module _ {ℓ κ} {A : Type ℓ} {B : Type κ} ⦃e : Eq A⦄ ⦃f : Eq B⦄ where
  abbrev pub pair_beq : A × B → A × B → Bool
  pair_beq p q = (p.0 == q.0) && (p.1 == q.1)

  pub pair_beq_iff : (p q : A × B) → (pair_beq p q ≡ true) ↔ (p ≡ q)
  pair_beq_iff (a, b) (c, d) = (
    λ h.
        let left = (e.beq_iff a c).0 (ground arith) in
        let right = (f.beq_iff b d).0 (ground arith) in cc,
    λ h. let left = (e.beq_iff a c).1 (cc) in let right = (f.beq_iff b d).1 (cc) in rw left right,
  )

  instance abbrev pub pair_eq : Eq (A × B)
  pair_eq = record { beq = pair_beq; beq_iff = pair_beq_iff }
