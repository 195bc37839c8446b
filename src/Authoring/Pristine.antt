-- ===== src/Authoring/Pristine.antt =====
-- An assessment that was just filled is pristine, and its deletion takes out what was added
-- (app/services/assessment_service.py).
use aigov.Authoring.Deletion.{delete_assessment, is_of_assessment, is_pristine, is_worked}
use aigov.Authoring.Prefill.{IsBlank, IsUnused, Prefilled}
use aigov.Authoring.RoundTrip.{find?-last, where_rows-append, where_rows-fresh, where_rows-none}
use aigov.Model.Enums.Assessment.{AssessmentStatus}
use aigov.Model.Rows.Assessment.{Assessment, AssessmentItem}
use aigov.Model.Session.{Session, TenantContext}
use aigov.Prelude.{
  All, All-map, Bool, List, [], any_row, any_row-and, any_row-append, any_row-congr,
  any_row-narrower, any_row-never, any_row-or, any_row-weaker, ap, arith, beq_refl, false, holds,
  nat_eq, none, not, ok, refl, true, where_rows, ℕ, ◌&&◌, ◌++◌, ◌==◌, ◌∙◌, ◌∷◌, ◌≡◌,
}
use aigov.Review.{load_assessment}
use mathlib.Core.List.{append-nil}

-- What the deletion of a new assessment leaves.
abbrev pub Deletes : TenantContext → Session → Assessment → Session → Type 0
Deletes ctx before a db =
    ((delete_assessment a.id ctx db).0 ≡ ok tt)
    × ((delete_assessment a.id ctx db).1.assessments ≡ before.assessments)
    × ((delete_assessment a.id ctx db).1.items ≡ before.items)

any_row-of_unworked :
    (id : ℕ) (before : Session) (rows : List AssessmentItem)
    → All (IsBlank id before) rows
    → any_row (λ item. item.assessment_id == id && is_worked item) rows ≡ false
any_row-of_unworked id before [] h = refl
any_row-of_unworked id before (item ∷ rows) h =
    rw (h.0.unworked, any_row-of_unworked id before rows h.1) (ground arith)

where_rows-of_blank :
    (id : ℕ) (before : Session) (rows : List AssessmentItem)
    → All (IsBlank id before) rows
    → where_rows (λ item. not (item.assessment_id == id)) rows ≡ []
where_rows-of_blank id before [] h = refl
where_rows-of_blank id before (item ∷ rows) h =
    rw (h.0.belongs, beq_refl id, where_rows-of_blank id before rows h.1) refl

eq_flip : (a b : ℕ) → (a == b) ≡ (b == a)
eq_flip a b = ground arith

-- No link is to one of the items.
any_row-of_apart :
    {L : Type 0} (item_of : L → ℕ) (q : AssessmentItem → Bool) (links : List L)
    (rows : List AssessmentItem)
    → All (λ item. any_row (λ l. item_of l == item.id) links ≡ false) rows
    → any_row (λ l. any_row (λ item. item.id == item_of l && q item) rows) links ≡ false
any_row-of_apart item_of q links [] h = any_row-never links
any_row-of_apart item_of q links (item ∷ rows) h =
    any_row-or (λ l. item.id == item_of l && q item) _ links
    ∙ rw
        (
          any_row-and (λ l. item.id == item_of l) (q item) links,
          any_row-congr (λ l. item.id == item_of l) (λ l. item_of l == item.id) links
              (λ l. eq_flip item.id (item_of l)),
          h.0,
          any_row-of_apart item_of q links rows h.1,
        )
        refl

-- Neither to an item of the assessment from before.
any_row-of_links :
    {L : Type 0} (item_of : L → ℕ) (id : ℕ) (links : List L) (before : Session)
    (rows : List AssessmentItem)
    → any_row (λ item. item.assessment_id == id) before.items ≡ false
    → All (λ item. any_row (λ l. item_of l == item.id) links ≡ false) rows
    → any_row
        (λ l.
          any_row (λ item. item.id == item_of l && item.assessment_id == id) (before.items ++ rows))
        links
      ≡ false
any_row-of_links item_of id links before rows empty apart =
    any_row-congr _ (λ l. any_row (λ item. item.id == item_of l && item.assessment_id == id) rows)
      links
      (λ l.
        any_row-append _ before.items rows
        ∙ rw
            (any_row-weaker (λ item. item.id == item_of l) (λ item. item.assessment_id == id)
              before.items empty)
            refl)
    ∙ any_row-of_apart item_of (λ item. item.assessment_id == id) links rows apart

module _ (db : Session) (a : Assessment) (fresh : IsUnused db a.id)
    (draft : a.status ≡ AssessmentStatus.draft) (root : a.parent_aiia_id ≡ none) where
  -- The session once the row of the assessment is inserted.
  abbrev IsInserted : Session → Type 0
  IsInserted start =
      (start.assessments ≡ db.assessments ++ a ∷ [])
      × (start.items ≡ db.items)
      × (start.reviews ≡ db.reviews)
      × (start.authorisations ≡ db.authorisations)
      × (start.item_controls ≡ db.item_controls)
      × (start.item_evidence ≡ db.item_evidence)

  is_pristine-Prefilled :
      (start s : Session) → IsInserted start → Prefilled a.id start s → is_pristine a s ≡ true
  unfolding is_pristine
  is_pristine-Prefilled start s ins p =
      let rows = p.items ∙ ap (λ (t : List AssessmentItem). t ++ p.added) ins.1 in
      let reviewed : any_row (λ row. row.assessment_id == a.id) s.reviews ≡ false =
        rw (p.reviews, ins.2) fresh.no_review in
      let authorised : any_row (λ row. row.assessment_id == a.id) s.authorisations ≡ false =
        rw (p.authorisations, ins.3) fresh.no_authorisation in
      let worked : any_row (λ item. item.assessment_id == a.id && is_worked item) s.items ≡ false =
        rw rows (
          any_row-append (λ item. item.assessment_id == a.id && is_worked item) db.items p.added
          ∙ rw
              (
                any_row-narrower (λ item. item.assessment_id == a.id) is_worked db.items
                    fresh.no_item,
                any_row-of_unworked a.id start p.added p.blank,
              )
              refl) in
      let controlled : any_row (λ link. is_of_assessment a.id s link.item_id) s.item_controls
          ≡ false =
        rw (rows, p.item_controls, ins.4)
          (any_row-of_links (λ link. link.item_id) a.id db.item_controls db p.added fresh.no_item
            (All-map (IsBlank a.id start) _ (λ item b. rw (← ins.4) b.uncontrolled) p.added
              p.blank)) in
      let evidenced : any_row (λ link. is_of_assessment a.id s link.item_id) s.item_evidence
          ≡ false =
        rw (rows, p.item_evidence, ins.5)
          (any_row-of_links (λ link. link.item_id) a.id db.item_evidence db p.added fresh.no_item
            (All-map (IsBlank a.id start) _ (λ item b. rw (← ins.5) b.unevidenced) p.added
              p.blank)) in
      let parent : any_row (λ row. holds row.parent_aiia_id a.id) s.assessments ≡ false =
        rw (p.assessments, ins.0)
          (any_row-append (λ row. holds row.parent_aiia_id a.id) db.assessments (a ∷ [])
            ∙ rw (fresh.no_feeder, root) refl) in
      rw (draft, reviewed, authorised, worked, controlled, evidenced, parent) refl

  pub Deletes-Prefilled :
      (ctx : TenantContext) (start s : Session)
      → a.tenant_id ≡ ctx.tenant_id
      → IsInserted start
      → Prefilled a.id start s
      → Deletes ctx db a s
  unfolding delete_assessment
  Deletes-Prefilled ctx start s own ins p =
      let rows = p.items ∙ ap (λ (t : List AssessmentItem). t ++ p.added) ins.1 in
      let loaded : load_assessment a.id ctx s ≡ ok a =
        rw
          (
            p.assessments,
            ins.0,
            find?-last (λ row. row.id == a.id && row.tenant_id == ctx.tenant_id) db.assessments a
                (any_row-narrower (λ row. row.id == a.id) (λ row. row.tenant_id == ctx.tenant_id)
                  db.assessments fresh.no_assessment)
                (rw (own, beq_refl a.id, beq_refl ctx.tenant_id) refl),
          )
          (unfold load_assessment in refl) in
      let kept_rows : where_rows (λ row. not (row.id == a.id)) s.assessments ≡ db.assessments =
        rw (p.assessments, ins.0)
          (where_rows-fresh (λ row. row.id) db.assessments a fresh.no_assessment) in
      let kept_items : where_rows (λ item. not (item.assessment_id == a.id)) s.items ≡ db.items =
        rw rows (
          where_rows-append (λ item. not (item.assessment_id == a.id)) db.items p.added
          ∙ rw
              (
                where_rows-none (λ item. item.assessment_id == a.id) db.items fresh.no_item,
                where_rows-of_blank a.id start p.added p.blank,
              )
              (append-nil db.items)) in
      rw (loaded, is_pristine-Prefilled start s ins p) (refl, kept_rows, kept_items)
