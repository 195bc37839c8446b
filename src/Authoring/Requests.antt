-- ===== src/Authoring/Requests.antt =====
-- The writes of authoring requests on an intact session (app/services/assessment_service.py).
use aigov.Authoring.Creation.{insert_assessment}
use aigov.Authoring.Deletion.{without_assessment}
use aigov.Authoring.Intact.{
  AreAnchored-append, AreAnchored-without, AreApart-append, AreApart-where_rows, IsIntact, clashes,
  has_assessment, has_new,
}
use aigov.Authoring.Links.{insert_control_link, insert_evidence_link}
use aigov.Authoring.Rows.{add_item}
use aigov.Items.{stage_audit, without_item}
use aigov.Lifecycle.Elsewhere.{IsElsewhere}
use aigov.Model.Enums.Knowledge.{CoverageStatus}
use aigov.Model.Rows.Assessment.{Assessment, AssessmentItem}
use aigov.Model.Rows.Lifecycle.{Detail}
use aigov.Model.Session.{Session, TenantContext}
use aigov.Prelude.{
  All-append, All-update_rows, All-where_rows, Bool, Bool-cases, Error, Exec, Keeps, List, String,
  [], any_row, any_row-congr, arith, beq_refl, err, find?, if◌then◌else◌, inl, inr, kept_if, modify,
  nat_eq, not, ok, or_error-ok, refl, some, some_eq, true, update_rows, ℕ, ◌++◌, ◌+◌, ◌==◌, ◌>>=◌,
  ◌∙◌, ◌∷◌, ◌≡◌,
}
use aigov.Review.{load_assessment}
use mathlib.Core.Bool.{or-true}

-- Intact, with an assessment of the id.
pub record IsIntactWith (id : ℕ) (db : Session) : Type 0 where
  pub intact : IsIntact db
  pub present : has_assessment id db.assessments ≡ true

pub IsIntact-IsElsewhere : IsElsewhere IsIntact
IsIntact-IsElsewhere = record {
  moved = λ db rows trail events n h. record { apart = h.apart; anchored = h.anchored };
}

-- A write that leaves the two tables alone.
only_other_tables :
    {A : Type 0} (m : Exec Session A)
    → ((db : Session) → (m db).1.assessments ≡ db.assessments)
    → ((db : Session) → (m db).1.items ≡ db.items)
    → Keeps IsIntact m
only_other_tables m e f = record {
  at = λ db h. record { apart = rw (e db) h.apart; anchored = rw (e db, f db) h.anchored };
}

pub stage_audit-IsIntact :
    (ctx : TenantContext) (action entity_type : String) (entity_id : ℕ)
    (detail : List (String × Detail))
    → Keeps IsIntact (stage_audit ctx action entity_type entity_id detail)
stage_audit-IsIntact ctx action entity_type entity_id detail =
    only_other_tables (stage_audit ctx action entity_type entity_id detail) (λ db. refl)
      (λ db. refl)

pub insert_control_link-IsIntact :
    (ctx : TenantContext) (item_id control_id : ℕ) (coverage : CoverageStatus)
    → Keeps IsIntact (insert_control_link ctx item_id control_id coverage)
unfolding insert_control_link
insert_control_link-IsIntact ctx item_id control_id coverage =
    only_other_tables (insert_control_link ctx item_id control_id coverage) (λ db. ground arith)
      (λ db. ground arith)

pub insert_evidence_link-IsIntact :
    (ctx : TenantContext) (item_id evidence_id : ℕ)
    → Keeps IsIntact (insert_evidence_link ctx item_id evidence_id)
unfolding insert_evidence_link
insert_evidence_link-IsIntact ctx item_id evidence_id =
    only_other_tables (insert_evidence_link ctx item_id evidence_id) (λ db. ground arith)
      (λ db. ground arith)

-- An UPDATE of items that leaves each with its assessment.
pub update_items-IsIntact :
    (p : AssessmentItem → Bool) (f : AssessmentItem → AssessmentItem) (e : Error)
    → ((item : AssessmentItem) → (f item).assessment_id ≡ item.assessment_id)
    → Keeps {R = Unit} IsIntact (λ db.
      if any_row p db.items
      then (ok tt, record db { items = update_rows p f db.items })
      else (err e, db))
update_items-IsIntact p f e same = record {
  at = λ db h.
      kept_if IsIntact (any_row p db.items) (ok tt, record db { items = update_rows p f db.items })
        (err e, db)
        (record {
          apart = h.apart;
          anchored =
              All-update_rows (λ item. has_assessment item.assessment_id db.assessments ≡ true)
                (λ item. has_assessment item.assessment_id db.assessments ≡ true) p f
                (λ item _ a. rw (same item) a) (λ item _ a. a) db.items h.anchored;
        })
        h;
}

pub without_item-IsIntact : (item : AssessmentItem) → Keeps IsIntact (modify (without_item item))
without_item-IsIntact item = record {
  at = λ db h. record {
    apart = h.apart;
    anchored =
        All-where_rows (λ other. has_assessment other.assessment_id db.assessments ≡ true)
          (λ row. not (row.id == item.id)) db.items h.anchored;
  };
}

pub without_assessment-IsIntact : (id : ℕ) → Keeps IsIntact (modify (without_assessment id))
without_assessment-IsIntact id = record {
  at = λ db h. record {
    apart = AreApart-where_rows (λ row. not (row.id == id)) db.assessments h.apart;
    anchored = AreAnchored-without id db.assessments db.items h.anchored;
  };
}

pub modify_links-IsIntact :
    (f : Session → Session)
    → ((db : Session) → (f db).assessments ≡ db.assessments)
    → ((db : Session) → (f db).items ≡ db.items)
    → Keeps IsIntact (modify f)
modify_links-IsIntact f = only_other_tables (modify f)

module _ (id : ℕ) where
  pub stage_audit-IsIntactWith :
      (ctx : TenantContext) (action entity_type : String) (entity_id : ℕ)
      (detail : List (String × Detail))
      → Keeps (IsIntactWith id) (stage_audit ctx action entity_type entity_id detail)
  stage_audit-IsIntactWith ctx action entity_type entity_id detail = record {
    at = λ db h. record {
      intact = (stage_audit-IsIntact ctx action entity_type entity_id detail).at db h.intact;
      present = h.present;
    };
  }

  pub add_item-IsIntactWith :
      (item_with : ℕ → AssessmentItem)
      → ((n : ℕ) → (item_with n).assessment_id ≡ id)
      → Keeps (IsIntactWith id) (add_item item_with)
  add_item-IsIntactWith item_with belongs = record {
    at = λ db h. record {
      intact = record {
        apart = h.intact.apart;
        anchored =
            All-append (λ item. has_assessment item.assessment_id db.assessments ≡ true) db.items
              (item_with (db.uuids db.drawn) ∷ []) h.intact.anchored
              (rw (belongs (db.uuids db.drawn)) h.present, tt);
      };
      present = h.present;
    };
  }

-- The insertion of an assessment, and what is done with it.
pub insert_assessment-IsIntact :
    (conflict : Assessment → Bool) (e : Error) (row_with : ℕ → Assessment)
    (next : Assessment → Exec Session Assessment)
    → ((n : ℕ) (row : Assessment) → clashes (row_with n) row ≡ conflict row)
    → ((a : Assessment) → Keeps (IsIntactWith a.id) (next a))
    → Keeps IsIntact (insert_assessment conflict e row_with >>= next)
insert_assessment-IsIntact conflict e row_with next same kept = record {
  at = λ db h.
      let new = row_with (db.uuids db.drawn) in
      let apart = any_row-congr (clashes new) conflict db.assessments (same (db.uuids db.drawn)) in
      elim (Bool-cases (any_row conflict db.assessments)) [
        | inl taken ↦ rw taken (record { apart = h.apart; anchored = h.anchored })
        | inr vacant ↦
            rw vacant
              ((kept new).at
                (record db { assessments = db.assessments ++ new ∷ []; drawn = db.drawn + 1 })
                (record {
                  intact = record {
                    apart = AreApart-append new db.assessments (apart ∙ vacant) h.apart;
                    anchored = AreAnchored-append new db.assessments db.items h.anchored;
                  };
                  present = has_new new db.assessments;
                })).intact
      ];
}

find?-has :
    (p : Assessment → Bool) (rows : List Assessment) (a : Assessment)
    → find? p rows ≡ some a
    → has_assessment a.id rows ≡ true
find?-has p [] a h = cc
find?-has p (row ∷ rows) a h = elim (Bool-cases (p row)) [
  | inl hit ↦ let same = some_eq (rw hit at h) in rw (same, beq_refl a.id) refl
  | inr miss ↦ rw (find?-has p rows a (rw miss at h)) (or-true _)
]

pub load_assessment-has :
    (id : ℕ) (ctx : TenantContext) (db : Session) (a : Assessment)
    → load_assessment id ctx db ≡ ok a
    → has_assessment a.id db.assessments ≡ true
unfolding load_assessment
load_assessment-has id ctx db a h = find?-has _ db.assessments a (or_error-ok _ _ h)
