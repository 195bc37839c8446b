-- ===== src/Model/Enums/Lifecycle.antt =====
-- The enums of the use case, its tier and its clearances (app/models/base.py), with the value that
-- each member is printed by.
use aigov.Prelude.{ℕ, String, ◌≡◌, arith, Eq, enum_eq}

pub data EuAiActTier : Type 0 where
  prohibited high limited minimal unclassified requires_context : EuAiActTier

abbrev pub eu_ai_act_tier_code : EuAiActTier → ℕ
eu_ai_act_tier_code prohibited = 0
eu_ai_act_tier_code high = 1
eu_ai_act_tier_code limited = 2
eu_ai_act_tier_code minimal = 3
eu_ai_act_tier_code unclassified = 4
eu_ai_act_tier_code requires_context = 5

pub eu_ai_act_tier_code-injective :
    (a b : EuAiActTier) → eu_ai_act_tier_code a ≡ eu_ai_act_tier_code b → a ≡ b
eu_ai_act_tier_code-injective a b h = ground arith

instance abbrev pub eu_ai_act_tier_eq : Eq EuAiActTier
eu_ai_act_tier_eq = enum_eq eu_ai_act_tier_code eu_ai_act_tier_code-injective

abbrev pub eu_ai_act_tier_value : EuAiActTier → String
eu_ai_act_tier_value prohibited = "prohibited"
eu_ai_act_tier_value high = "high_risk"
eu_ai_act_tier_value limited = "limited_risk"
eu_ai_act_tier_value minimal = "minimal_risk"
eu_ai_act_tier_value unclassified = "unclassified"
eu_ai_act_tier_value requires_context = "requires_context"

pub data ApprovalStatus : Type 0 where
  not_started under_review approved rejected expired : ApprovalStatus

abbrev pub approval_status_code : ApprovalStatus → ℕ
approval_status_code not_started = 0
approval_status_code under_review = 1
approval_status_code approved = 2
approval_status_code rejected = 3
approval_status_code expired = 4

pub approval_status_code-injective :
    (a b : ApprovalStatus) → approval_status_code a ≡ approval_status_code b → a ≡ b
approval_status_code-injective a b h = ground arith

instance abbrev pub approval_status_eq : Eq ApprovalStatus
approval_status_eq = enum_eq approval_status_code approval_status_code-injective

abbrev pub approval_status_value : ApprovalStatus → String
approval_status_value not_started = "not_started"
approval_status_value under_review = "under_review"
approval_status_value approved = "approved"
approval_status_value rejected = "rejected"
approval_status_value expired = "expired"

pub data LifecycleState : Type 0 where
  requested vendor_check product_check intake halted_prohibited under_assessment treatment_pending
        pending_authorisation authorised deployed held retired :
      LifecycleState

abbrev pub lifecycle_state_code : LifecycleState → ℕ
lifecycle_state_code requested = 0
lifecycle_state_code vendor_check = 1
lifecycle_state_code product_check = 2
lifecycle_state_code intake = 3
lifecycle_state_code halted_prohibited = 4
lifecycle_state_code under_assessment = 5
lifecycle_state_code treatment_pending = 6
lifecycle_state_code pending_authorisation = 7
lifecycle_state_code authorised = 8
lifecycle_state_code deployed = 9
lifecycle_state_code held = 10
lifecycle_state_code retired = 11

pub lifecycle_state_code-injective :
    (a b : LifecycleState) → lifecycle_state_code a ≡ lifecycle_state_code b → a ≡ b
lifecycle_state_code-injective a b h = ground arith

instance abbrev pub lifecycle_state_eq : Eq LifecycleState
lifecycle_state_eq = enum_eq lifecycle_state_code lifecycle_state_code-injective

abbrev pub lifecycle_state_value : LifecycleState → String
lifecycle_state_value requested = "requested"
lifecycle_state_value vendor_check = "vendor_check"
lifecycle_state_value product_check = "product_check"
lifecycle_state_value intake = "intake"
lifecycle_state_value halted_prohibited = "halted_prohibited"
lifecycle_state_value under_assessment = "under_assessment"
lifecycle_state_value treatment_pending = "treatment_pending"
lifecycle_state_value pending_authorisation = "pending_authorisation"
lifecycle_state_value authorised = "authorised"
lifecycle_state_value deployed = "deployed"
lifecycle_state_value held = "held"
lifecycle_state_value retired = "retired"

pub data ClassificationStatus : Type 0 where
  pending_review approved changes_requested needs_refresh : ClassificationStatus

abbrev pub classification_status_code : ClassificationStatus → ℕ
classification_status_code pending_review = 0
classification_status_code approved = 1
classification_status_code changes_requested = 2
classification_status_code needs_refresh = 3

pub classification_status_code-injective :
    (a b : ClassificationStatus)
    → classification_status_code a ≡ classification_status_code b
    → a ≡ b
classification_status_code-injective a b h = ground arith

instance abbrev pub classification_status_eq : Eq ClassificationStatus
classification_status_eq = enum_eq classification_status_code classification_status_code-injective

abbrev pub classification_status_value : ClassificationStatus → String
classification_status_value pending_review = "pending_review"
classification_status_value approved = "approved"
classification_status_value changes_requested = "changes_requested"
classification_status_value needs_refresh = "needs_refresh"

pub data ClassificationDisposition : Type 0 where
  authoritative down_selection : ClassificationDisposition

abbrev pub classification_disposition_code : ClassificationDisposition → ℕ
classification_disposition_code authoritative = 0
classification_disposition_code down_selection = 1

pub classification_disposition_code-injective :
    (a b : ClassificationDisposition)
    → classification_disposition_code a ≡ classification_disposition_code b
    → a ≡ b
classification_disposition_code-injective a b h = ground arith

instance abbrev pub classification_disposition_eq : Eq ClassificationDisposition
classification_disposition_eq =
    enum_eq classification_disposition_code classification_disposition_code-injective

abbrev pub classification_disposition_value : ClassificationDisposition → String
classification_disposition_value authoritative = "authoritative"
classification_disposition_value down_selection = "down_selection"
