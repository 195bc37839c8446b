-- ===== src/ClassificationService.antt =====
-- The proposal of a tier by app/services/classification.py.
pub mod Snapshot
pub mod Resolution
pub mod Current
pub mod Prohibition
use aigov.Model.Enums.Lifecycle.{
  ClassificationDisposition, EuAiActTier, classification_disposition_value,
}
use aigov.Model.Rows.Domain.{EuAiActSubcategory, ProductCategoryMembership, System}
use aigov.Model.Session.{Session, get_system, get_use_case}
use aigov.Prelude.{
  List, Message, Option, Result, String, [], err, http, if◌then◌else◌, join_rows, leb, lit, ltb,
  map, nat_eq, none, ok, some, string_eq, value_error, where_rows, ℕ, ◌&&◌, ◌++◌, ◌==◌, ◌∷◌,
}

-- `_tier_rank`: the place in `_TIER_ORDER`, or its length.
unfoldable pub tier_rank : EuAiActTier → ℕ
tier_rank EuAiActTier.prohibited = 0
tier_rank EuAiActTier.high = 1
tier_rank EuAiActTier.limited = 2
tier_rank EuAiActTier.minimal = 3
tier_rank _ = 4

-- The categories of a product, for a mapping: the join with the memberships.
abbrev pub memberships_for : ℕ → ℕ → Session → List ProductCategoryMembership
memberships_for product_id category_id db =
    where_rows (λ m. m.product_category_id == category_id && m.catalogue_product_id == product_id)
      db.category_memberships

-- `_primary_mappings_for_product`: a row for each subcategory, primary mapping and membership.
unfoldable pub primary_mappings_for_product : ℕ → Session → List EuAiActSubcategory
primary_mappings_for_product product_id db =
    join_rows
      (λ sub.
        join_rows
          (λ mapping. map (λ _. sub) (memberships_for product_id mapping.product_category_id db))
          (where_rows (λ mapping. mapping.eu_ai_act_subcategory_id == sub.id && mapping.is_primary)
            db.eu_mappings))
      db.subcategories

-- `_primary_mappings_for_category`: the same, for one of the categories.
unfoldable pub primary_mappings_for_category : ℕ → ℕ → Session → List EuAiActSubcategory
primary_mappings_for_category product_id category_id db =
    join_rows
      (λ sub.
        join_rows
          (λ mapping.
            map (λ _. sub)
              (where_rows (λ m. m.product_category_id == category_id)
                (memberships_for product_id mapping.product_category_id db)))
          (where_rows (λ mapping. mapping.eu_ai_act_subcategory_id == sub.id && mapping.is_primary)
            db.eu_mappings))
      db.subcategories

pub record ClassificationProposal : Type 0 where
  pub tier : EuAiActTier
  pub subcategory_code : Option String
  pub subcategory_name : Option String
  pub legal_ref : Option String
  pub rationale : Message
  pub disposition : ClassificationDisposition

-- The proposal that sends a use case to the context questions.
abbrev pub context_required : Message → ClassificationProposal
context_required rationale = record {
  tier = EuAiActTier.requires_context;
  subcategory_code = none;
  subcategory_name = none;
  legal_ref = none;
  rationale = rationale;
  disposition = ClassificationDisposition.authoritative;
}

-- `min(rows, key=lambda r: _tier_rank(r.tier))`: the first of the best rows, from a first row on.
unfoldable pub best_from : EuAiActSubcategory → List EuAiActSubcategory → EuAiActSubcategory
best_from best [] = best
best_from best (r ∷ rows) =
    best_from (if ltb (tier_rank r.tier) (tier_rank best.tier) then r else best) rows

-- `legal_ref or 'no legal ref'`: an empty text is replaced too.
abbrev pub legal_ref_or : Option String → String
legal_ref_or none = "no legal ref"
legal_ref_or (some s) = if s == "" then "no legal ref" else s

-- `", ".join(r.code for r in rows)`
abbrev pub join_codes : List EuAiActSubcategory → Message
join_codes [] = []
join_codes (r ∷ []) = lit r.code ∷ []
join_codes (r ∷ rest) = lit r.code ∷ lit ", " ∷ join_codes rest

abbrev pub disposition_of : EuAiActTier → EuAiActTier → ClassificationDisposition
disposition_of governing highest =
    if leb (tier_rank governing) (tier_rank highest)
    then ClassificationDisposition.authoritative
    else ClassificationDisposition.down_selection

-- The declared path, with the rows of the declared category and of the product.
unfoldable pub declared_proposal :
    List EuAiActSubcategory → List EuAiActSubcategory → Result ClassificationProposal
unfolding best_from
declared_proposal [] all = ok (
    context_required (
      lit "The declared intended-use category has no primary EU AI Act mapping. "
      ∷ lit "Context questions are required to determine the applicable tier."
      ∷ []))
declared_proposal (r ∷ rows) [] = err value_error
declared_proposal (r ∷ rows) (p ∷ all) =
    let governing = best_from r rows in
    let disposition = disposition_of governing.tier (best_from p all).tier in
    ok record {
      tier = governing.tier;
      subcategory_code = some governing.code;
      subcategory_name = some governing.name;
      legal_ref = governing.legal_ref;
      rationale =
          lit "Governing subcategory derived from declared intended-use category: "
          ∷ lit governing.code
          ∷ lit " ("
          ∷ lit (legal_ref_or governing.legal_ref)
          ∷ lit "). Disposition: "
          ∷ lit (classification_disposition_value disposition)
          ∷ lit "."
          ∷ [];
      disposition = disposition;
    }

abbrev pub product_rationale : EuAiActSubcategory → List EuAiActSubcategory → Message
product_rationale best (r ∷ []) =
    lit "Derived from product category primary mapping: "
    ∷ lit best.code
    ∷ lit " ("
    ∷ lit (legal_ref_or best.legal_ref)
    ∷ lit ")."
    ∷ []
product_rationale best rows =
    lit "Derived from product category primary mappings: ["
    ∷ (join_codes rows
        ++ lit "]. Governing subcategory: "
          ∷ lit best.code
          ∷ lit " ("
          ∷ lit (legal_ref_or best.legal_ref)
          ∷ lit ") — highest applicable tier."
          ∷ [])

-- The path without a declaration: the highest tier of the product.
unfoldable pub product_proposal : List EuAiActSubcategory → ClassificationProposal
unfolding best_from
product_proposal [] = context_required (
    lit "None of the product's categories has a primary EU AI Act mapping. "
    ∷ lit "Context questions are required to determine the applicable tier."
    ∷ [])
product_proposal (r ∷ rows) =
    let best = best_from r rows in
    record {
      tier = best.tier;
      subcategory_code = some best.code;
      subcategory_name = some best.name;
      legal_ref = best.legal_ref;
      rationale = product_rationale best (r ∷ rows);
      disposition = ClassificationDisposition.authoritative;
    }

-- The declared category, where there is a use case that has one.
abbrev pub declared_category : Option ℕ → Session → Option ℕ
declared_category none db = none
declared_category (some id) db = elim (get_use_case db id) [
  | none ↦ none
  | some use_case ↦ use_case.product_category_id
]

abbrev pub proposal_by : Option ℕ → ℕ → Session → Result ClassificationProposal
proposal_by none product_id db = ok (product_proposal (primary_mappings_for_product product_id db))
proposal_by (some category_id) product_id db =
    declared_proposal (primary_mappings_for_category product_id category_id db)
      (primary_mappings_for_product product_id db)

abbrev pub proposal_for : Option ℕ → Option ℕ → Session → Result ClassificationProposal
proposal_for none use_case_id db = ok (
    context_required (
      lit "System has no catalogue product link. "
      ∷ lit "Context questions are required to determine the applicable tier."
      ∷ []))
proposal_for (some product_id) use_case_id db =
    proposal_by (declared_category use_case_id db) product_id db

-- What follows the load of the system.
abbrev pub proposal_with : Option System → Option ℕ → Session → Result ClassificationProposal
proposal_with none use_case_id db = err (http 404 (lit "System not found" ∷ []))
proposal_with (some system) use_case_id db = proposal_for system.catalogue_product_id use_case_id db

unfoldable pub resolve_classification : ℕ → Option ℕ → Session → Result ClassificationProposal
unfolding declared_proposal product_proposal primary_mappings_for_product
    primary_mappings_for_category
resolve_classification system_id use_case_id db =
    proposal_with (get_system db system_id) use_case_id db
