-- ===== src/Authoring/Intact.antt =====
-- Assessments that exclude each other, and the assessment of an item (app/models/assessment.py,
-- app/services/assessment_service.py).
use aigov.Authoring.Amend.{differs}
use aigov.Authoring.Creation.{is_current_aiia_of}
use aigov.Authoring.Feeders.{is_feeder_of}
use aigov.Model.Enums.Assessment.{AssessmentType, assessment_type_eq}
use aigov.Model.Rows.Assessment.{Assessment, AssessmentItem}
use aigov.Model.Session.{Session}
use aigov.Prelude.{
  All, All-append, All-map, All-where_rows, Bool, Bool-cases, List, [], any_row, any_row-congr,
  any_row-where_rows, arith, beq_refl, false, inl, inr, nat_eq, none, not, refl, some, true,
  where_rows, ℕ, ◌&&◌, ◌++◌, ◌==◌, ◌||◌, ◌∙◌, ◌∷◌, ◌≡◌,
}
use mathlib.Core.Bool.{or-true}

-- The first row cannot be beside the second: it is a second current AIIA of a use case, or a
-- second feeder of its type under a parent.
abbrev pub clashes : Assessment → Assessment → Bool
clashes new row =
    (new.type == AssessmentType.aiia && new.is_current && is_current_aiia_of new.use_case_id row)
    || elim new.parent_aiia_id [
      | none ↦ false
      | some parent_id ↦ is_feeder_of parent_id new.type row
    ]

abbrev pub AreApart : List Assessment → Type 0
AreApart [] = Unit
AreApart (row ∷ rows) = All (λ later. clashes later row ≡ false) rows × AreApart rows

abbrev pub has_assessment : ℕ → List Assessment → Bool
has_assessment id rows = any_row (λ row. row.id == id) rows

abbrev pub AreAnchored : List Assessment → List AssessmentItem → Type 0
AreAnchored rows items = All (λ item. has_assessment item.assessment_id rows ≡ true) items

-- No two assessments exclude each other, and every item is one of an assessment.
pub record IsIntact (db : Session) : Type 0 where
  pub apart : AreApart db.assessments
  pub anchored : AreAnchored db.assessments db.items

pub AreApart-append :
    (new : Assessment) (rows : List Assessment)
    → any_row (clashes new) rows ≡ false
    → AreApart rows
    → AreApart (rows ++ new ∷ [])
AreApart-append new [] free h = (tt, tt)
AreApart-append new (row ∷ rows) free h = (
  All-append (λ later. clashes later row ≡ false) rows (new ∷ []) h.0
      (or-left (clashes new row) _ free, tt),
  AreApart-append new rows (or-right (clashes new row) _ free) h.1,
)
  where
    or-left : (a b : Bool) → (a || b) ≡ false → a ≡ false
    or-left a b e = ground arith

    or-right : (a b : Bool) → (a || b) ≡ false → b ≡ false
    or-right a b e = ground arith

pub AreApart-where_rows :
    (p : Assessment → Bool) (rows : List Assessment) → AreApart rows → AreApart (where_rows p rows)
AreApart-where_rows p [] h = tt
AreApart-where_rows p (row ∷ rows) h = elim (Bool-cases (p row)) [
  | inl kept ↦ rw kept (
    All-where_rows (λ later. clashes later row ≡ false) p rows h.0,
    AreApart-where_rows p rows h.1,
  )
  | inr dropped ↦ rw dropped (AreApart-where_rows p rows h.1)
]

-- More assessments anchor what fewer do.
pub AreAnchored-append :
    (new : Assessment) (rows : List Assessment) (items : List AssessmentItem)
    → AreAnchored rows items
    → AreAnchored (rows ++ new ∷ []) items
AreAnchored-append new rows items h =
    All-map (λ item. has_assessment item.assessment_id rows ≡ true)
      (λ item. has_assessment item.assessment_id (rows ++ new ∷ []) ≡ true)
      (λ item e. has_more item.assessment_id rows e) items h
  where
    has_more :
        (id : ℕ) (olds : List Assessment)
        → has_assessment id olds ≡ true
        → has_assessment id (olds ++ new ∷ []) ≡ true
    has_more id [] e = cc
    has_more id (old ∷ olds) e = elim (Bool-cases (old.id == id)) [
      | inl hit ↦ rw hit refl
      | inr miss ↦ rw miss (has_more id olds (rw miss at e))
    ]

pub has_new :
    (new : Assessment) (rows : List Assessment) → has_assessment new.id (rows ++ new ∷ []) ≡ true
has_new new [] = rw (beq_refl new.id) refl
has_new new (row ∷ rows) = rw (has_new new rows) (or-true _)

-- A deletion leaves the assessments of the items that it leaves.
pub AreAnchored-without :
    (id : ℕ) (rows : List Assessment) (items : List AssessmentItem)
    → AreAnchored rows items
    → AreAnchored
        (where_rows (λ row. not (row.id == id)) rows)
        (where_rows (λ item. not (item.assessment_id == id)) items)
AreAnchored-without id rows [] h = tt
AreAnchored-without id rows (item ∷ items) h = elim (Bool-cases (item.assessment_id == id)) [
  | inl gone ↦ rw gone (AreAnchored-without id rows items h.1)
  | inr kept ↦
      rw kept (still item.assessment_id kept rows h.0, AreAnchored-without id rows items h.1)
]
  where
    still :
        (other : ℕ)
        → (other == id) ≡ false
        → (olds : List Assessment) → has_assessment other olds ≡ true
        → has_assessment other (where_rows (λ row. not (row.id == id)) olds) ≡ true
    still other differs olds e =
        any_row-where_rows (λ row. row.id == other) (λ row. not (row.id == id)) olds
        ∙ any_row-congr _ _ olds (λ row. own row.id)
        ∙ e
      where
        own : (n : ℕ) → (not (n == id) && (n == other)) ≡ (n == other)
        own n = ground arith
