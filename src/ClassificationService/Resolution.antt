-- ===== src/ClassificationService/Resolution.antt =====
-- The tier and the disposition that `resolve_classification` (app/services/classification.py)
-- proposes.
use aigov.ClassificationService.{
  ClassificationProposal, best_from, declared_category, declared_proposal, disposition_of,
  memberships_for, primary_mappings_for_category, primary_mappings_for_product, proposal_by,
  proposal_for, proposal_with, resolve_classification, tier_rank,
}
use aigov.Model.Enums.Lifecycle.{ClassificationDisposition, EuAiActTier}
use aigov.Model.Rows.Domain.{EuAiActSubcategory, System}
use aigov.Model.Session.{Session, get_system}
use aigov.Prelude.{
  All, All-map, Bool, Bool-cases, List, [], ap, arith, if◌then◌else◌, inl, inr, join_rows, leb, ltb,
  map, nat_eq, ok, refl, some, sym, where_rows, ℕ, ◌&&◌, ◌++◌, ◌==◌, ◌↔◌, ◌∙◌, ◌∷◌, ◌≡◌, ◌≢◌, ◌≤◌,
}
use native.Mathlib.Nat.{le_trans}

-- No row has a higher tier.
abbrev pub IsHighest : EuAiActTier → List EuAiActSubcategory → Type 0
IsHighest t = All (λ r. tier_rank t ≤ tier_rank r.tier)

better : EuAiActSubcategory → EuAiActSubcategory → EuAiActSubcategory
better best r = if ltb (tier_rank r.tier) (tier_rank best.tier) then r else best

better-bounds :
    (best r : EuAiActSubcategory)
    → (tier_rank (better best r).tier ≤ tier_rank best.tier)
      × (tier_rank (better best r).tier ≤ tier_rank r.tier)
unfolding better
better-bounds best r = elim (Bool-cases (ltb (tier_rank r.tier) (tier_rank best.tier))) [
  | inl less ↦ rw less (ground arith, omega arith)
  | inr more ↦ rw more (omega arith, ground arith)
]

best_from-improves :
    (best : EuAiActSubcategory) (rows : List EuAiActSubcategory)
    → tier_rank (best_from best rows).tier ≤ tier_rank best.tier
unfolding best_from better
best_from-improves best [] = omega arith
best_from-improves best (r ∷ rows) =
    le_trans (best_from-improves (better best r) rows) ((better-bounds best r).0)

best_from-IsHighest :
    (best : EuAiActSubcategory) (rows : List EuAiActSubcategory)
    → IsHighest (best_from best rows).tier (best ∷ rows)
unfolding best_from better
best_from-IsHighest best [] = (omega arith, tt)
best_from-IsHighest best (r ∷ rows) =
    let rest = best_from-IsHighest (better best r) rows in
    (
      best_from-improves best (r ∷ rows),
      (le_trans (best_from-improves (better best r) rows) ((better-bounds best r).1), rest.1),
    )

-- The best row is one of the rows: what no row exceeds, it does not exceed.
best_from-attained :
    (t : EuAiActTier) (best : EuAiActSubcategory) (rows : List EuAiActSubcategory)
    → IsHighest t (best ∷ rows)
    → tier_rank t ≤ tier_rank (best_from best rows).tier
unfolding best_from better
best_from-attained t best [] h = h.0
best_from-attained t best (r ∷ rows) h = best_from-attained t (better best r) rows (
  elim (Bool-cases (ltb (tier_rank r.tier) (tier_rank best.tier))) [
    | inl less ↦ rw less h.1.0
    | inr more ↦ rw more h.0
  ],
  h.1.1,
)

append-none : {A : Type 0} (xs ys : List A) → xs ++ ys ≡ [] → (xs ≡ []) × (ys ≡ [])
append-none [] ys h = (refl, h)
append-none (x ∷ xs) ys h = cc

join_rows-none :
    {A B C : Type 0} (f : A → List B) (g : A → List C)
    → ((a : A) → f a ≡ [] → g a ≡ [])
    → (rows : List A) → join_rows f rows ≡ []
    → join_rows g rows ≡ []
join_rows-none f g h [] e = refl
join_rows-none f g h (r ∷ rows) e =
    let (head, tail) = append-none (f r) (join_rows f rows) e in
    rw (h r head) (join_rows-none f g h rows tail)

map-none_of :
    {A B : Type 0} (f : A → B) (q : A → Bool) (rows : List A)
    → map f rows ≡ []
    → map f (where_rows q rows) ≡ []
map-none_of f q [] h = refl
map-none_of f q (r ∷ rows) h = cc

-- A product without primary mappings has none for any of its categories.
no_declared :
    (product_id category_id : ℕ) (db : Session)
    → primary_mappings_for_product product_id db ≡ []
    → primary_mappings_for_category product_id category_id db ≡ []
unfolding primary_mappings_for_product primary_mappings_for_category
no_declared product_id category_id db =
    join_rows-none _ _
      (λ sub.
        join_rows-none _ _
          (λ mapping.
            map-none_of (λ _. sub) (λ m. m.product_category_id == category_id)
              (memberships_for product_id mapping.product_category_id db))
          (where_rows (λ mapping. mapping.eu_ai_act_subcategory_id == sub.id && mapping.is_primary)
            db.eu_mappings))
      db.subcategories

-- The row is one of the rows.
abbrev pub IsAmong : EuAiActSubcategory → List EuAiActSubcategory → Type 0
IsAmong row rows =
    (before : List EuAiActSubcategory) × (after : List EuAiActSubcategory) × (rows
      ≡ before ++ row ∷ after)

-- A row among others stays one when another is put second.
past_next :
    {row : EuAiActSubcategory} (best r : EuAiActSubcategory) (rows : List EuAiActSubcategory)
    → IsAmong row (best ∷ rows)
    → IsAmong row (best ∷ r ∷ rows)
past_next {row} best r rows ([], after, split) =
    let same : best ≡ row = cc in ([], r ∷ rows, rw same refl)
past_next best r rows (b ∷ before, after, split) = (best ∷ r ∷ before, after, cc)

best_from-IsAmong :
    (best : EuAiActSubcategory) (rows : List EuAiActSubcategory)
    → IsAmong (best_from best rows) (best ∷ rows)
unfolding best_from
best_from-IsAmong best [] = ([], [], refl)
best_from-IsAmong best (r ∷ rows) =
    elim (Bool-cases (ltb (tier_rank r.tier) (tier_rank best.tier))) [
      | inl less ↦
          let (before, after, split) = best_from-IsAmong r rows in
          rw less (best ∷ before, after, ap (λ (l : List EuAiActSubcategory). best ∷ l) split)
      | inr more ↦ rw more (past_next best r rows (best_from-IsAmong best rows))
    ]

-- What a proposal on a declared category says.
pub record Declared (declared all : List EuAiActSubcategory) (p : ClassificationProposal)
    : Type 0 where
  pub basis : EuAiActSubcategory
  pub is_mapping : IsAmong basis declared
  pub code : p.subcategory_code ≡ some basis.code
  pub tier : p.tier ≡ basis.tier
  pub governing : IsHighest p.tier declared
  pub disposition : (p.disposition ≡ ClassificationDisposition.authoritative) ↔ IsHighest p.tier all

not_authoritative :
    ClassificationDisposition.down_selection ≢ ClassificationDisposition.authoritative
not_authoritative h = cc

authoritative_iff :
    (a b : EuAiActTier)
    → (disposition_of a b ≡ ClassificationDisposition.authoritative) ↔ (tier_rank a ≤ tier_rank b)
authoritative_iff a b = elim (Bool-cases (leb (tier_rank a) (tier_rank b))) [
  | inl le ↦ (λ _. ground arith, λ _. rw le refl)
  | inr gt ↦ (λ h. absurd (not_authoritative (rw gt at h)), λ le. absurd (ground arith))
]

not_none : {A : Type 0} {a : A} {rows : List A} → a ∷ rows ≢ []
not_none h = cc

declared_proposal-Declared :
    (r q : EuAiActSubcategory) (rows all : List EuAiActSubcategory)
    → (p : ClassificationProposal) × (declared_proposal (r ∷ rows) (q ∷ all) ≡ ok p)
      × Declared (r ∷ rows) (q ∷ all) p
unfolding declared_proposal
declared_proposal-Declared r q rows all = (
  _,
  refl,
  record {
    basis = best_from r rows;
    is_mapping = best_from-IsAmong r rows;
    code = refl;
    tier = refl;
    governing = best_from-IsHighest r rows;
    disposition =
        let iff = authoritative_iff (best_from r rows).tier (best_from q all).tier in
        (
          λ h.
              All-map (λ x. tier_rank (best_from q all).tier ≤ tier_rank x.tier) _
                (λ x le. le_trans (iff.0 h) le) (q ∷ all) (best_from-IsHighest q all),
          λ h. iff.1 (best_from-attained (best_from r rows).tier q all h),
        );
  },
)

resolves :
    (system_id use_case_id product_id category_id : ℕ) (db : Session) (system : System)
    → get_system db system_id ≡ some system
    → system.catalogue_product_id ≡ some product_id
    → declared_category (some use_case_id) db ≡ some category_id
    → resolve_classification system_id (some use_case_id) db
      ≡ declared_proposal
          (primary_mappings_for_category product_id category_id db)
          (primary_mappings_for_product product_id db)
unfolding resolve_classification
resolves system_id use_case_id product_id category_id db system found link declared =
    ap (λ o. proposal_with o (some use_case_id) db) found
    ∙ ap (λ o. proposal_for o (some use_case_id) db) link
    ∙ ap (λ o. proposal_by o product_id db) declared

-- For a system with a product and a use case that declares a category with a primary mapping, the
-- proposal returns: its tier and its code are those of a subcategory that the primary mappings of the
-- category list, none that they list has a higher tier, and it is AUTHORITATIVE exactly when none that
-- the primary mappings of the whole product list has a higher one.
pub resolve_classification-Declared :
    (system_id use_case_id product_id category_id : ℕ) (db : Session) (system : System)
    (r : EuAiActSubcategory) (rows : List EuAiActSubcategory)
    → get_system db system_id ≡ some system
    → system.catalogue_product_id ≡ some product_id
    → declared_category (some use_case_id) db ≡ some category_id
    → primary_mappings_for_category product_id category_id db ≡ r ∷ rows
    → (p : ClassificationProposal) × (resolve_classification system_id (some use_case_id) db ≡ ok p)
      × Declared (r ∷ rows) (primary_mappings_for_product product_id db) p
resolve_classification-Declared system_id use_case_id product_id category_id db system r rows found
      link declared mapped =
    go (primary_mappings_for_product product_id db) refl
  where
    go :
        (all : List EuAiActSubcategory)
        → primary_mappings_for_product product_id db ≡ all
        → (p : ClassificationProposal) × (resolve_classification system_id (some use_case_id) db
            ≡ ok p)
          × Declared (r ∷ rows) (primary_mappings_for_product product_id db) p
    go [] e = absurd (not_none (sym mapped ∙ no_declared product_id category_id db e))
    go (q ∷ all) e =
        let (p, returns, says) = declared_proposal-Declared r q rows all in
        (
          p,
          unfold resolve_classification in rw (found, link, declared, mapped, e) returns,
          rw e says,
        )
