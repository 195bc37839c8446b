-- ===== src/Prelude/Ordering.antt =====
-- `ORDER BY` on a numeric column, ascending; rows that tie keep the order of the table.
use Prim.Native.Nat.{ℕ, Ordering}
use Prim.Native.String.{String, compare}
use mathlib.Core.Bool.{Bool, true, false}
use mathlib.Core.List.{List, [], ◌∷◌}
use aigov.Prelude.Tests.{leb, if◌then◌else◌}

module _ {ℓ} {A : Type ℓ} (column : A → ℕ) where
  abbrev pub insert_by : A → List A → List A
  insert_by a [] = a ∷ []
  insert_by a (b ∷ rows) =
      let later = insert_by a rows in if leb (column a) (column b) then a ∷ b ∷ rows else b ∷ later

  abbrev pub order_by : List A → List A
  order_by [] = []
  order_by (a ∷ rows) = insert_by a (order_by rows)

abbrev pub string_leb : String → String → Bool
string_leb a b = elim (compare a b) [
  | Ordering.lt ↦ true
  | Ordering.eq ↦ true
  | Ordering.gt ↦ false
]

abbrev pub insert_string : String → List String → List String
insert_string a [] = a ∷ []
insert_string a (b ∷ rows) =
    let later = insert_string a rows in if string_leb a b then a ∷ b ∷ rows else b ∷ later

-- `sorted(rows)`
abbrev pub sorted : List String → List String
sorted [] = []
sorted (a ∷ rows) = insert_string a (sorted rows)
