-- ===== src/Authoring/Performed.antt =====
-- What an amendment has read and written, along its code (app/services/assessment_service.py).
use aigov.Approvals.{decided}
use aigov.Authoring.Amend.{
  AssessmentItemAmend, Synchronised, after_treatment, amend_item, amended, authoring_changes,
  is_amendable, treatment_changes, update_amended, write_amendment,
}
use aigov.Authoring.RoundTrip.{assert_authoring_unlocked-same}
use aigov.Items.{assert_authoring_unlocked, load_item}
use aigov.Lifecycle.Elsewhere.{advance_use_case-elsewhere}
use aigov.Model.Enums.Assessment.{ProvenanceConfidence, provenance_confidence_eq}
use aigov.Model.Rows.Assessment.{AssessmentItem}
use aigov.Model.Session.{Session, TenantContext}
use aigov.Prelude.{
  After, After-of_ok, After-returned, After-step, All-find?, Bool, Bool-cases, From, IsKeyedBy,
  Keeps, List, any_row, arith, false, find?, find?-by_key, find?-holds, find?-update_rows,
  if◌then◌else◌, inl, inr, is_empty, keeps_rules, nat_eq, not, ok, or_error-ok, pure, refl,
  sole_row, some, true, update_rows, ℕ, ◌&&◌, ◌==◌, ◌||◌, ◌∙◌, ◌≡◌, ◌⊎◌,
}

-- An amendment that changes nothing leaves the session as it was; any other was of a decided item
-- at the expected version, and writes that item as the patch says.
abbrev pub Writes :
    ℕ
    → ℕ
    → AssessmentItemAmend
    → TenantContext
    → AssessmentItem
    → Session
    → AssessmentItem
    → Session
    → Type 0
Writes item_id expected patch ctx item db b s =
    let authored = not (is_empty (authoring_changes patch item)) in
    let treated = not (is_empty (treatment_changes patch item)) in
    (((authored || treated) ≡ false) × (b ≡ item) × (s ≡ db))
    ⊎ (((authored || treated) ≡ true)
        × ((item.provenance == ProvenanceConfidence.ai_suggested) ≡ false)
        × (item.lock_version ≡ expected)
        × (b ≡ amended patch item authored item)
        × (s.items
            ≡ update_rows (is_amendable item_id expected ctx) (amended patch item authored)
                db.items))

pub record Performed (item_id expected : ℕ) (patch : AssessmentItemAmend) (ctx : TenantContext)
    (db : Session) (b : AssessmentItem) (s : Session) : Type 0 where
  pub item : AssessmentItem
  pub loaded : load_item item_id ctx db ≡ ok item
  pub unlocked : (assert_authoring_unlocked item.assessment_id db).0 ≡ ok tt
  pub writes : Writes item_id expected patch ctx item db b s

-- The row that was read is the one that the UPDATE matches.
matched :
    (item_id expected : ℕ) (ctx : TenantContext) (rows : List AssessmentItem)
    (item : AssessmentItem)
    → IsKeyedBy (λ row. row.id) rows
    → find? (λ row. row.id == item_id && row.tenant_id == ctx.tenant_id) rows ≡ some item
    → any_row (is_amendable item_id expected ctx) rows ≡ true
    → is_amendable item_id expected ctx item ≡ true
matched item_id expected ctx rows item keyed found hit =
    let own = find?-holds _ rows item found in
    let sole =
      sole_row (λ row. row.id) (is_amendable item_id expected ctx) item_id (λ row h. ground arith)
        rows keyed hit in
    let here = All-find? _ _ rows sole found in
    elim (Bool-cases (is_amendable item_id expected ctx item)) [
      | inl yes_it ↦ yes_it
      | inr not_it ↦ let other = here not_it in ground arith
    ]

-- The refreshed object is the written row.
refreshed_item :
    (item_id expected : ℕ) (ctx : TenantContext) (f : AssessmentItem → AssessmentItem)
    (rows : List AssessmentItem) (item : AssessmentItem)
    → ((row : AssessmentItem) → (f row).id ≡ row.id)
    → IsKeyedBy (λ row. row.id) rows
    → find? (λ row. row.id == item_id && row.tenant_id == ctx.tenant_id) rows ≡ some item
    → any_row (is_amendable item_id expected ctx) rows ≡ true
    → find? (λ row. row.id == item.id) (update_rows (is_amendable item_id expected ctx) f rows)
      ≡ some (f item)
refreshed_item item_id expected ctx f rows item keep keyed found hit =
    find?-update_rows (λ row. row.id == item.id) (is_amendable item_id expected ctx) f
      (λ row. rw (keep row) refl) rows
    ∙ rw
        (
          find?-by_key (λ row. row.id) _ rows keyed found,
          matched item_id expected ctx rows item keyed found hit,
        )
        refl

after_treatment-items :
    (treated : Bool) (item : AssessmentItem) (ctx : TenantContext) (rows : List AssessmentItem)
    → Keeps (λ s. s.items ≡ rows) (after_treatment treated item ctx)
unfolding after_treatment
after_treatment-items treated item ctx rows =
    let drive =
      advance_use_case-elsewhere (λ s. s.items ≡ rows) (record { moved = λ db _ _ _ _ h. h }) in
    search (keeps_rules, drive) depth 20

versioned :
    (item_id expected : ℕ) (ctx : TenantContext) (item : AssessmentItem)
    → is_amendable item_id expected ctx item ≡ true
    → item.lock_version ≡ expected
versioned item_id expected ctx item h = ground arith

module _ (synchronised : Synchronised) (item_id expected : ℕ) (patch : AssessmentItemAmend)
    (ctx : TenantContext) (db : Session) (item : AssessmentItem)
    (keyed : IsKeyedBy (λ row. row.id) db.items)
    (found : find? (λ row. row.id == item_id && row.tenant_id == ctx.tenant_id) db.items
      ≡ some item) where
  abbrev authored : Bool
  authored = not (is_empty (authoring_changes patch item))

  abbrev treated : Bool
  treated = not (is_empty (treatment_changes patch item))

  abbrev is_target : AssessmentItem → Bool
  is_target = is_amendable item_id expected ctx

  abbrev written : AssessmentItem → AssessmentItem
  written = amended patch item authored

  write_amendment-Writes :
      (authored || treated) ≡ true
      → After
          (Writes item_id expected patch ctx item db)
          (write_amendment synchronised item patch item_id expected ctx db)
  unfolding write_amendment update_amended
  write_amendment-Writes some_change =
      elim (Bool-cases (item.provenance == ProvenanceConfidence.ai_suggested)) [
        | inl proposed ↦ rw proposed tt
        | inr decided ↦ elim (Bool-cases (any_row is_target db.items)) [
          | inr stale ↦ rw (decided, stale) tt
          | inl hit ↦
              let again =
                refreshed_item item_id expected ctx written db.items item (λ row. refl) keyed found
                  hit in
              rw (decided, hit, again)
                (After-step (Writes item_id expected patch ctx item db) _
                  (after_treatment treated (written item) ctx _)
                  (λ _ _. inr (
                    some_change,
                    decided,
                    versioned item_id expected ctx item
                        (matched item_id expected ctx db.items item keyed found hit),
                    refl,
                    (after_treatment-items treated (written item) ctx
                          (update_rows is_target written db.items)).at
                        _ refl,
                  )))
        ]
      ]

pub load_item-found :
    (item_id : ℕ) (ctx : TenantContext) (db : Session) (item : AssessmentItem)
    → load_item item_id ctx db ≡ ok item
    → find? (λ row. row.id == item_id && row.tenant_id == ctx.tenant_id) db.items ≡ some item
unfolding load_item
load_item-found item_id ctx db item h = or_error-ok _ _ h

patched-Performed :
    (synchronised : Synchronised) (item_id expected : ℕ) (patch : AssessmentItemAmend)
    (ctx : TenantContext) (db : Session)
    → IsKeyedBy (λ row. row.id) db.items
    → (item : AssessmentItem) → load_item item_id ctx db ≡ ok item
    → (assert_authoring_unlocked item.assessment_id db).0 ≡ ok tt
    → After (Performed item_id expected patch ctx db) (
        (if is_empty (authoring_changes patch item) && is_empty (treatment_changes patch item)
            then pure item
            else write_amendment synchronised item patch item_id expected ctx)
          db)
patched-Performed synchronised item_id expected patch ctx db keyed item loaded unlocked =
    let found = load_item-found item_id ctx db item loaded in
    let changes = is_empty (authoring_changes patch item) in
    let treatments = is_empty (treatment_changes patch item) in
    elim (Bool-cases (changes && treatments)) [
      | inl same ↦ rw same record {
        item = item;
        loaded = loaded;
        unlocked = unlocked;
        writes = inl (ground arith, refl, refl);
      }
      | inr more ↦
          let write = write_amendment synchronised item patch item_id expected ctx db in
          rw more (
            After-of_ok (Performed item_id expected patch ctx db) write (λ b e. record {
              item = item;
              loaded = loaded;
              unlocked = unlocked;
              writes =
                  After-returned (Writes item_id expected patch ctx item db) write
                    (write_amendment-Writes synchronised item_id expected patch ctx db item keyed
                      found (ground arith))
                    e;
            }))
    ]

pub amend_item-From :
    (synchronised : Synchronised) (item_id expected : ℕ) (patch : AssessmentItemAmend)
    (ctx : TenantContext) (db : Session)
    → IsKeyedBy (λ row. row.id) db.items
    → From db
        (Performed item_id expected patch ctx db)
        (amend_item synchronised item_id patch expected ctx)
unfolding amend_item
amend_item-From synchronised item_id expected patch ctx db keyed = record {
  at =
      After-step (Performed item_id expected patch ctx db) _ (load_item item_id ctx db, db)
        λ item loaded.
          After-step (Performed item_id expected patch ctx db) _
            (assert_authoring_unlocked item.assessment_id db)
            λ _ unlocked. rw (assert_authoring_unlocked-same item.assessment_id db) (
              patched-Performed synchronised item_id expected patch ctx db keyed item loaded
                unlocked);
}
