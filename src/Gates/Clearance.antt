-- ===== src/Gates/Clearance.antt =====
-- `vendor_gate`, `product_gate` and `_approval_verdict` of app/services/lifecycle_gates.py.
use aigov.Gates.Verdict.{GateResult, ResponsibleParty, Verdict, authoriser, park}
use aigov.Model.Enums.Lifecycle.{ApprovalStatus, approval_status_eq, approval_status_value}
use aigov.Model.Rows.Domain.{Approval, System, UseCase}
use aigov.Model.Session.{Session, get_system}
use aigov.Prelude.{
  Bool, List, Option, String, [], false, find?, if◌then◌else◌, lit, ltb, nat_eq, none, not, some, ℕ,
  ◌&&◌, ◌==◌, ◌∷◌,
}

pub data Kind : Type 0 where
  vendor_kind product_kind : Kind

abbrev pub kind_name : Kind → String
kind_name vendor_kind = "Vendor"
kind_name product_kind = "Product"

-- `kind.lower()`
abbrev pub kind_lower : Kind → String
kind_lower vendor_kind = "vendor"
kind_lower product_kind = "product"

-- `valid_until is not None and valid_until < _now()`
unfoldable pub has_expired : Approval → ℕ → Bool
has_expired approval now = elim approval.valid_until [ none ↦ false | some t ↦ ltb t now ]

unfoldable pub approval_verdict : Option Approval → Kind → ℕ → GateResult
unfolding has_expired
approval_verdict none kind now = record {
  verdict = park;
  reason_code = lit (kind_lower kind) ∷ lit "_not_started" ∷ [];
  reason = lit (kind_name kind) ∷ lit " clearance not yet requested" ∷ [];
  responsible_party = authoriser;
}
approval_verdict (some approval) kind now =
    if not (approval.status == ApprovalStatus.approved)
    then record {
      verdict = park;
      reason_code =
          lit (kind_lower kind) ∷ lit "_" ∷ lit (approval_status_value approval.status) ∷ [];
      reason =
          lit (kind_name kind)
          ∷ lit " clearance is "
          ∷ lit (approval_status_value approval.status)
          ∷ [];
      responsible_party = authoriser;
    }
    else if has_expired approval now
    then record {
      verdict = park;
      reason_code = lit (kind_lower kind) ∷ lit "_expired" ∷ [];
      reason = lit (kind_name kind) ∷ lit " clearance has expired" ∷ [];
      responsible_party = authoriser;
    }
    else record {
      verdict = Verdict.advance;
      reason_code = lit (kind_lower kind) ∷ lit "_approved" ∷ [];
      reason = lit (kind_name kind) ∷ lit " clearance approved and valid" ∷ [];
      responsible_party = ResponsibleParty.system;
    }

-- The tenant's clearance of a vendor or a product, in the table that holds it.
abbrev pub find_approval : ℕ → ℕ → List Approval → Option Approval
find_approval tenant_id catalogue_id =
    find? (λ row. row.tenant_id == tenant_id && row.catalogue_id == catalogue_id)

abbrev pub vendor_not_applicable : GateResult
vendor_not_applicable = record {
  verdict = Verdict.advance;
  reason_code = lit "vendor_not_applicable" ∷ [];
  reason = lit "No vendor link on this system" ∷ [];
  responsible_party = ResponsibleParty.system;
}

abbrev pub product_not_applicable : GateResult
product_not_applicable = record {
  verdict = Verdict.advance;
  reason_code = lit "product_not_applicable" ∷ [];
  reason = lit "No product link on this system" ∷ [];
  responsible_party = ResponsibleParty.system;
}

-- `system is None or system.catalogue_vendor_id is None`: the link, where there is one.
abbrev pub vendor_link : Option System → Option ℕ
vendor_link none = none
vendor_link (some s) = s.catalogue_vendor_id

abbrev pub product_link : Option System → Option ℕ
product_link none = none
product_link (some s) = s.catalogue_product_id

-- What follows the look-up of the link.
unfoldable pub vendor_clearance : UseCase → Session → Option ℕ → GateResult
unfolding approval_verdict
vendor_clearance use_case db none = vendor_not_applicable
vendor_clearance use_case db (some vendor_id) =
    approval_verdict (find_approval use_case.tenant_id vendor_id db.vendor_approvals) vendor_kind
      db.now

unfoldable pub product_clearance : UseCase → Session → Option ℕ → GateResult
unfolding approval_verdict
product_clearance use_case db none = product_not_applicable
product_clearance use_case db (some product_id) =
    approval_verdict (find_approval use_case.tenant_id product_id db.product_approvals) product_kind
      db.now

unfoldable pub vendor_gate : UseCase → Session → GateResult
unfolding vendor_clearance
vendor_gate use_case db =
    vendor_clearance use_case db (vendor_link (get_system db use_case.system_id))

unfoldable pub product_gate : UseCase → Session → GateResult
unfolding product_clearance
product_gate use_case db =
    product_clearance use_case db (product_link (get_system db use_case.system_id))
