-- ===== src/Model/Rows/Lifecycle.antt =====
-- The audit trail, transitions and authorisations (app/models/lifecycle.py), governance roles
-- (app/models/governance.py), and identities (app/models/identity.py).
use aigov.Model.Enums.Lifecycle.{LifecycleState}
use aigov.Prelude.{Bool, List, Message, Option, String, ℕ}

-- A value in the JSON `detail` of an audit event.
pub data Detail : Type 0 where
  null : Detail
  text : String → Detail
  message : Message → Detail
  num : ℕ → Detail
  flag : Bool → Detail
  ids : List ℕ → Detail
  -- An object with the keys `before` and `after`.
  change : Detail → Detail → Detail

pub record AuditEvent : Type 0 where
  pub id : ℕ
  pub tenant_id : ℕ
  pub actor_user_id : ℕ
  pub action : String
  pub entity_type : String
  pub entity_id : ℕ
  pub detail : List (String × Detail)

pub record LifecycleTransition : Type 0 where
  pub id : ℕ
  pub tenant_id : ℕ
  pub use_case_id : ℕ
  pub from_state : LifecycleState
  pub to_state : LifecycleState
  pub actor_user_id : ℕ
  pub reason : Option Message

pub record DeploymentAuthorisation : Type 0 where
  pub id : ℕ
  pub tenant_id : ℕ
  pub use_case_id : ℕ
  pub assessment_id : ℕ
  pub submission_round : ℕ
  pub tier : String
  pub assessment_version : ℕ
  pub authorised_by_user_id : ℕ
  pub authorised_by_name : Option String
  pub authorised_by_email : Option String
  pub residual_risk_statement : String

pub record GovernanceRole : Type 0 where
  pub id : ℕ
  pub key : String

-- Stored with `role_a_id < role_b_id`.
pub record GovernanceRoleConflict : Type 0 where
  pub role_a_id : ℕ
  pub role_b_id : ℕ

pub record GovernanceRoleAssignment : Type 0 where
  pub id : ℕ
  pub tenant_id : ℕ
  pub membership_id : ℕ
  pub governance_role_id : ℕ

pub record User : Type 0 where
  pub id : ℕ
  pub email : String
  pub display_name : Option String

pub record Membership : Type 0 where
  pub id : ℕ
  pub user_id : ℕ
  pub tenant_id : ℕ
