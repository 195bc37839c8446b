-- ===== src/Gates/Verdict.antt =====
-- `GateResult` of app/services/lifecycle_gates.py.
use aigov.Prelude.{Eq, Message, arith, enum_eq, ℕ, ◌≡◌}

pub data Verdict : Type 0 where
  advance park halt : Verdict

abbrev pub verdict_code : Verdict → ℕ
verdict_code advance = 0
verdict_code park = 1
verdict_code halt = 2

pub verdict_code-injective : (a b : Verdict) → verdict_code a ≡ verdict_code b → a ≡ b
verdict_code-injective a b h = ground arith

instance abbrev pub verdict_eq : Eq Verdict
verdict_eq = enum_eq verdict_code verdict_code-injective

pub data ResponsibleParty : Type 0 where
  user reviewer authoriser vendor system : ResponsibleParty

pub record GateResult : Type 0 where
  pub verdict : Verdict
  pub reason_code : Message
  pub reason : Message
  pub responsible_party : ResponsibleParty
