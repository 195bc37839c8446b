-- ===== src/Examples/Tiers.antt =====
-- app/services/classification.py at work on the small tenant.
use aigov.ClassificationService.{
  ClassificationProposal, primary_mappings_for_category, primary_mappings_for_product,
  resolve_classification,
}
use aigov.ClassificationService.Current.{IsCurrentOnly, snapshot_classification-IsCurrentOnly}
use aigov.ClassificationService.Prohibition.{Halted, snapshot_classification-halts}
use aigov.ClassificationService.Resolution.{Declared, resolve_classification-Declared}
use aigov.ClassificationService.Snapshot.{SnapshotOptions, new_snapshot, snapshot_classification}
use aigov.Examples.World.{chat_system, cleared, use_case_in}
use aigov.Lifecycle.Arrival.{Succeeds}
use aigov.Model.Enums.Lifecycle.{
  ClassificationDisposition, ClassificationStatus, EuAiActTier, LifecycleState,
}
use aigov.Model.Rows.Domain.{EuAiActSubcategory}
use aigov.Model.Session.{Session}
use aigov.Prelude.{[], false, lit, none, ok, refl, some, true, ℕ, ◌∷◌, ◌≡◌}

abbrev subcategory : ℕ → EuAiActTier → EuAiActSubcategory
subcategory id tier = record { id = id; code = "S"; name = "Sub"; tier = tier; legal_ref = none }

-- The product is in two categories, and the use case declares the one of the lower tier.
abbrev mapped : Session
mapped = record (cleared LifecycleState.intake) {
  use_cases = record (use_case_in LifecycleState.intake) { product_category_id = some 2 } ∷ [];
  subcategories = subcategory 11 EuAiActTier.high ∷ subcategory 12 EuAiActTier.minimal ∷ [];
  category_memberships =
      record { catalogue_product_id = 20; product_category_id = 1 }
      ∷ record { catalogue_product_id = 20; product_category_id = 2 }
      ∷ [];
  eu_mappings =
      record { product_category_id = 1; eu_ai_act_subcategory_id = 11; is_primary = true }
      ∷ record { product_category_id = 2; eu_ai_act_subcategory_id = 12; is_primary = true }
      ∷ [];
}

resolve_classification-Declared_example :
    (p : ClassificationProposal) × (resolve_classification 5 (some 7) mapped ≡ ok p)
    × Declared (subcategory 12 EuAiActTier.minimal ∷ []) (primary_mappings_for_product 20 mapped) p
unfolding primary_mappings_for_category primary_mappings_for_product
resolve_classification-Declared_example =
    resolve_classification-Declared 5 7 20 2 mapped chat_system (subcategory 12 EuAiActTier.minimal)
      [] refl refl refl refl

abbrev forbidding : ClassificationProposal
forbidding = record {
  tier = EuAiActTier.prohibited;
  subcategory_code = none;
  subcategory_name = none;
  legal_ref = none;
  rationale = lit "Social scoring" ∷ [];
  disposition = ClassificationDisposition.authoritative;
}

abbrev overriding : SnapshotOptions
overriding = record {
  overridden = true;
  proposed_tier = some EuAiActTier.minimal;
  justification = none;
  status = ClassificationStatus.approved;
  stamp_eu_tier = true;
  off_label = false;
}

snapshot_classification-IsCurrentOnly_example :
    IsCurrentOnly
      (use_case_in LifecycleState.held)
      (new_snapshot
        (use_case_in LifecycleState.held)
        forbidding
        overriding
        (cleared LifecycleState.held))
      (cleared LifecycleState.held).classifications
      (snapshot_classification
        (use_case_in LifecycleState.held)
        forbidding
        overriding
        2
        (cleared LifecycleState.held)).1.classifications
snapshot_classification-IsCurrentOnly_example =
    snapshot_classification-IsCurrentOnly (use_case_in LifecycleState.held) forbidding overriding 2
      (cleared LifecycleState.held)

snapshot_classification-halts_example :
    Succeeds
      (snapshot_classification (use_case_in LifecycleState.held) forbidding overriding 2)
      (cleared LifecycleState.held)
      (Halted (use_case_in LifecycleState.held) (
        new_snapshot
          (use_case_in LifecycleState.held)
          forbidding
          overriding
          (cleared LifecycleState.held)))
snapshot_classification-halts_example =
    snapshot_classification-halts (use_case_in LifecycleState.held) forbidding overriding 2
      (cleared LifecycleState.held) refl refl refl
