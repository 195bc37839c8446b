-- ===== src/Model/Rows/Domain.antt =====
-- Systems, use cases and clearances (app/models/domain.py), and what they refer to in
-- app/models/intake.py and app/models/taxonomy.py. A row keeps the columns that the modelled code
-- reads or writes; identifiers and instants are numbers.
use aigov.Model.Enums.Lifecycle.{ApprovalStatus, EuAiActTier, LifecycleState}
use aigov.Prelude.{Bool, Message, Option, String, ℕ}

pub record System : Type 0 where
  pub id : ℕ
  pub tenant_id : ℕ
  pub name : String
  pub catalogue_vendor_id : Option ℕ
  pub catalogue_product_id : Option ℕ
  pub operator_role_id : Option ℕ
  pub hosting_model_id : Option ℕ

pub record UseCase : Type 0 where
  pub id : ℕ
  pub tenant_id : ℕ
  pub system_id : ℕ
  pub title : String
  pub product_category_id : Option ℕ
  pub usage_context_id : Option ℕ
  pub human_oversight_type_id : Option ℕ
  pub state : LifecycleState
  pub eu_tier : EuAiActTier
  pub held_from_state : Option LifecycleState
  pub held_reason : Option Message

-- VendorApproval and ProductApproval differ in the table and in the name of `catalogue_id`.
pub record Approval : Type 0 where
  pub id : ℕ
  pub tenant_id : ℕ
  pub catalogue_id : ℕ
  pub status : ApprovalStatus
  pub valid_until : Option ℕ
  pub decided_by_user_id : Option ℕ
  pub decided_at : Option ℕ
  pub note : Option String

pub record EuOperatorRole : Type 0 where
  pub id : ℕ
  pub code : String
  pub label : String

pub record DataCategory : Type 0 where
  pub id : ℕ
  pub label : String
  pub is_special_category : Bool

pub record UseCaseDataCategory : Type 0 where
  pub id : ℕ
  pub use_case_id : ℕ
  pub data_category_id : ℕ

pub record EuAiActSubcategory : Type 0 where
  pub id : ℕ
  pub code : String
  pub name : String
  pub tier : EuAiActTier
  pub legal_ref : Option String

pub record ProductCategoryMembership : Type 0 where
  pub catalogue_product_id : ℕ
  pub product_category_id : ℕ

pub record ProductCategoryEuMapping : Type 0 where
  pub product_category_id : ℕ
  pub eu_ai_act_subcategory_id : ℕ
  pub is_primary : Bool
