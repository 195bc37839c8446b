-- ===== src/Model/Enums/Knowledge.antt =====
-- The enums of controls, frameworks and risks (app/models/base.py), with the value that each member
-- is printed by. CoverageStatus.OPEN is `opened`, since `open` is a word of the language.
use aigov.Prelude.{Eq, String, arith, enum_eq, ℕ, ◌≡◌}

pub data CoverageStatus : Type 0 where
  opened partial satisfied : CoverageStatus

abbrev pub coverage_status_code : CoverageStatus → ℕ
coverage_status_code opened = 0
coverage_status_code partial = 1
coverage_status_code satisfied = 2

pub coverage_status_code-injective :
    (a b : CoverageStatus) → coverage_status_code a ≡ coverage_status_code b → a ≡ b
coverage_status_code-injective a b h = ground arith

instance abbrev pub coverage_status_eq : Eq CoverageStatus
coverage_status_eq = enum_eq coverage_status_code coverage_status_code-injective

abbrev pub coverage_status_value : CoverageStatus → String
coverage_status_value opened = "open"
coverage_status_value partial = "partial"
coverage_status_value satisfied = "satisfied"

pub data Framework : Type 0 where
  iso_42001 iso_42005 eu_ai_act nist_ai_rmf : Framework

abbrev pub framework_code : Framework → ℕ
framework_code iso_42001 = 0
framework_code iso_42005 = 1
framework_code eu_ai_act = 2
framework_code nist_ai_rmf = 3

pub framework_code-injective : (a b : Framework) → framework_code a ≡ framework_code b → a ≡ b
framework_code-injective a b h = ground arith

instance abbrev pub framework_eq : Eq Framework
framework_eq = enum_eq framework_code framework_code-injective

abbrev pub framework_value : Framework → String
framework_value iso_42001 = "iso_42001"
framework_value iso_42005 = "iso_42005"
framework_value eu_ai_act = "eu_ai_act"
framework_value nist_ai_rmf = "nist_ai_rmf"

pub data RiskLayer : Type 0 where
  technical_security governance_rights adversarial_threat : RiskLayer

abbrev pub risk_layer_code : RiskLayer → ℕ
risk_layer_code technical_security = 0
risk_layer_code governance_rights = 1
risk_layer_code adversarial_threat = 2

pub risk_layer_code-injective : (a b : RiskLayer) → risk_layer_code a ≡ risk_layer_code b → a ≡ b
risk_layer_code-injective a b h = ground arith

instance abbrev pub risk_layer_eq : Eq RiskLayer
risk_layer_eq = enum_eq risk_layer_code risk_layer_code-injective

abbrev pub risk_layer_value : RiskLayer → String
risk_layer_value technical_security = "technical_security"
risk_layer_value governance_rights = "governance_rights"
risk_layer_value adversarial_threat = "adversarial_threat"
