-- ===== src/Authoring/Amended.antt =====
-- What an amendment that returned has found and left (app/services/assessment_service.py).
use aigov.Approvals.{decided}
use aigov.Authoring.Alters.{
  AltersAuthoring, AltersTreatment, authoring-Alters, not_authoring-Alters, not_treatment-Alters,
  treatment-Alters,
}
use aigov.Authoring.Amend.{
  AssessmentItemAmend, Synchronised, amend_item, amended, authoring_changes, is_amendable,
  treatment_changes,
}
use aigov.Authoring.Overwritten.{Overwritten, amended-Overwritten}
use aigov.Authoring.Performed.{Performed, Writes, amend_item-From, load_item-found}
use aigov.Items.Lock.{Unlocked, Unlocked-of_guard}
use aigov.Lifecycle.Outcomes.{none_of}
use aigov.Model.Enums.Assessment.{ProvenanceConfidence, provenance_confidence_eq}
use aigov.Model.Rows.Assessment.{AssessmentItem}
use aigov.Model.Session.{Session, TenantContext}
use aigov.Prelude.{
  After-returned, Bool, Bool-cases, IsKeyedBy, List, [], ap, arith, false, find?, find?-by_key,
  find?-holds, find?-update_rows, inl, inr, is_empty, nat_eq, not, ok, refl, some, sym, true,
  update_rows, where_rows, ℕ, ◌&&◌, ◌==◌, ◌||◌, ◌∙◌, ◌∷◌, ◌≡◌, ◌≢◌, ◌⊎◌,
}
use mathlib.Core.Path.{subst}

-- What an amendment that returned has found and left.
pub record Amended (item_id expected : ℕ) (patch : AssessmentItemAmend) (ctx : TenantContext)
    (db : Session) (b : AssessmentItem) (s : Session) : Type 0 where
  pub unlocked : Unlocked item_id ctx db
  pub effect :
      ((¬ AltersAuthoring patch unlocked.item)
        × (¬ AltersTreatment patch unlocked.item)
        × (b ≡ unlocked.item)
        × (s ≡ db))
      ⊎ ((AltersAuthoring patch unlocked.item ⊎ AltersTreatment patch unlocked.item)
          × (unlocked.item.provenance ≢ ProvenanceConfidence.ai_suggested)
          × (unlocked.item.lock_version ≡ expected)
          × Overwritten patch unlocked.item b
          × (find? (λ row. row.id == item_id) s.items ≡ some b)
          × (where_rows (λ row. not (row.id == item_id)) s.items
              ≡ where_rows (λ row. not (row.id == item_id)) db.items))

decided_item :
    (p : ProvenanceConfidence)
    → (p == ProvenanceConfidence.ai_suggested) ≡ false
    → p ≢ ProvenanceConfidence.ai_suggested
decided_item p h e = let met = (provenance_confidence_eq.beq_iff _ _).1 e in cc

where_rows-update_rows :
    (p q : AssessmentItem → Bool) (f : AssessmentItem → AssessmentItem)
    → ((row : AssessmentItem) → p (f row) ≡ p row)
    → ((row : AssessmentItem) → q row ≡ true → p row ≡ false)
    → (rows : List AssessmentItem) → where_rows p (update_rows q f rows) ≡ where_rows p rows
where_rows-update_rows p q f keep apart [] = refl
where_rows-update_rows p q f keep apart (row ∷ rows) =
    let rest = where_rows-update_rows p q f keep apart rows in
    elim (Bool-cases (q row)) [
      | inl hit ↦ let out = apart row hit in rw (hit, keep row, out) rest
      | inr miss ↦ elim (Bool-cases (p row)) [
        | inl in_it ↦ rw (miss, in_it) (ap (λ l. row ∷ l) rest)
        | inr out ↦ rw (miss, out) rest
      ]
    ]

some_change-Alters :
    (patch : AssessmentItemAmend) (item : AssessmentItem) (a t : Bool)
    → not (is_empty (authoring_changes patch item)) ≡ a
    → not (is_empty (treatment_changes patch item)) ≡ t
    → (a || t) ≡ true
    → AltersAuthoring patch item ⊎ AltersTreatment patch item
some_change-Alters patch item true t ea et h = inl (authoring-Alters patch item ea)
some_change-Alters patch item false t ea et h = inr (treatment-Alters patch item (et ∙ h))

no_change-Alters :
    (patch : AssessmentItemAmend) (item : AssessmentItem) (a t : Bool)
    → not (is_empty (authoring_changes patch item)) ≡ a
    → not (is_empty (treatment_changes patch item)) ≡ t
    → (a || t) ≡ false
    → (¬ AltersAuthoring patch item) × (¬ AltersTreatment patch item)
no_change-Alters patch item true t ea et h = cc
no_change-Alters patch item false t ea et h =
    (not_authoring-Alters patch item ea, not_treatment-Alters patch item (et ∙ h))

-- The stored item after the write, and the others.
written_table :
    (item_id expected : ℕ) (ctx : TenantContext) (f : AssessmentItem → AssessmentItem)
    (rows : List AssessmentItem) (item : AssessmentItem)
    → ((row : AssessmentItem) → (f row).id ≡ row.id)
    → IsKeyedBy (λ row. row.id) rows
    → find? (λ row. row.id == item_id && row.tenant_id == ctx.tenant_id) rows ≡ some item
    → item.lock_version ≡ expected
    → (find? (λ row. row.id == item_id) (update_rows (is_amendable item_id expected ctx) f rows)
        ≡ some (f item))
      × (where_rows
            (λ row. not (row.id == item_id))
            (update_rows (is_amendable item_id expected ctx) f rows)
          ≡ where_rows (λ row. not (row.id == item_id)) rows)
written_table item_id expected ctx f rows item keep keyed found version =
    let own = find?-holds _ rows item found in
    let id : item.id ≡ item_id = ground arith in
    let here : find? (λ row. row.id == item_id) rows ≡ some item =
      subst (λ i. find? (λ row. row.id == i) rows ≡ some item) id
        (find?-by_key (λ row. row.id) _ rows keyed found) in
    let hit : is_amendable item_id expected ctx item ≡ true = ground arith in
    (
      find?-update_rows (λ row. row.id == item_id) (is_amendable item_id expected ctx) f
            (λ row. rw (keep row) refl) rows
          ∙ rw (here, hit) refl,
      where_rows-update_rows (λ row. not (row.id == item_id)) (is_amendable item_id expected ctx) f
          (λ row. rw (keep row) refl) (λ row h. ground arith) rows,
    )

abbrev Effect :
    ℕ → ℕ → AssessmentItemAmend → Session → AssessmentItem → Session → AssessmentItem → Type 0
Effect item_id expected patch db b s item =
    ((¬ AltersAuthoring patch item) × (¬ AltersTreatment patch item) × (b ≡ item) × (s ≡ db))
    ⊎ ((AltersAuthoring patch item ⊎ AltersTreatment patch item)
        × (item.provenance ≢ ProvenanceConfidence.ai_suggested)
        × (item.lock_version ≡ expected)
        × Overwritten patch item b
        × (find? (λ row. row.id == item_id) s.items ≡ some b)
        × (where_rows (λ row. not (row.id == item_id)) s.items
            ≡ where_rows (λ row. not (row.id == item_id)) db.items))

Writes-Effect :
    (item_id expected : ℕ) (patch : AssessmentItemAmend) (ctx : TenantContext)
    (item : AssessmentItem) (db : Session) (b : AssessmentItem) (s : Session)
    → IsKeyedBy (λ row. row.id) db.items
    → find? (λ row. row.id == item_id && row.tenant_id == ctx.tenant_id) db.items ≡ some item
    → Writes item_id expected patch ctx item db b s
    → Effect item_id expected patch db b s item
Writes-Effect item_id expected patch ctx item db b s keyed found (inl (none_of, same, still)) =
    let (authoring, treatment) = no_change-Alters patch item _ _ refl refl none_of in
    inl (authoring, treatment, same, still)
Writes-Effect item_id expected patch ctx item db b s keyed found
      (inr (some_of, decided, version, returned, table)) =
    let values = amended patch item (not (is_empty (authoring_changes patch item))) in
    let (stored, others) =
      written_table item_id expected ctx values db.items item (λ row. refl) keyed found version in
    inr (
      some_change-Alters patch item _ _ refl refl some_of,
      decided_item item.provenance decided,
      version,
      rw returned (amended-Overwritten patch item),
      rw (table, returned) stored,
      rw table others,
    )

Performed-Amended :
    (item_id expected : ℕ) (patch : AssessmentItemAmend) (ctx : TenantContext) (db : Session)
    (b : AssessmentItem) (s : Session)
    → IsKeyedBy (λ row. row.id) db.items
    → Performed item_id expected patch ctx db b s
    → Amended item_id expected patch ctx db b s
Performed-Amended item_id expected patch ctx db b s keyed h =
    let (u, same) = Unlocked-of_guard item_id ctx db h.item h.loaded h.unlocked in
    record {
      unlocked = u;
      effect = subst (Effect item_id expected patch db b s) (sym same) (
          Writes-Effect item_id expected patch ctx h.item db b s keyed
            (load_item-found item_id ctx db h.item h.loaded) h.writes);
    }

-- An amendment that returns was of an item of the own tenant whose AIIA was neither in review nor
-- approved. If no field that the patch gives differs from the item's, the item is returned and the
-- session is as it was. Otherwise the item was not AI_SUGGESTED and stood at the expected version.
-- The item that is returned, and is now stored, has the next version, every field that the patch
-- gives, and all else as before, but for the provenance, which becomes USER_AMENDED exactly if it was
-- CATALOGUE_CURATED and an authoring field differed; no other item is touched. The items are taken
-- to have different ids.
pub amend_item-Amended :
    (synchronised : Synchronised) (item_id expected : ℕ) (patch : AssessmentItemAmend)
    (ctx : TenantContext) (db : Session) (b : AssessmentItem)
    → IsKeyedBy (λ row. row.id) db.items
    → (amend_item synchronised item_id patch expected ctx db).0 ≡ ok b
    → Amended item_id expected patch ctx db b
        (amend_item synchronised item_id patch expected ctx db).1
amend_item-Amended synchronised item_id expected patch ctx db b keyed h =
    let run = amend_item synchronised item_id patch expected ctx db in
    Performed-Amended item_id expected patch ctx db b run.1 keyed (
      After-returned (Performed item_id expected patch ctx db) run
        (amend_item-From synchronised item_id expected patch ctx db keyed).at h)
