-- ===== src/Compliance/Period.antt =====
-- rules/checks.py: `check_presentation_period`.
pub mod Deadlines
use trade_sentry.Prelude.{
  ℕ, ◌+◌, String, Bool, ◌&&◌, Option, none, some, List, ◌++◌, if◌then◌else◌, nat_beq, ltb,
}
use trade_sentry.Prelude.Int.{ℤ, pos_part, neg_part, sub_ℕ, ltb_ℤ}
use trade_sentry.Contracts.Fields.{Date}
use trade_sentry.Compliance.Model.{
  art14c, material, ComplianceFinding, default_transport_presentation_days,
}
use trade_sentry.Compliance.Finding.{
  Host, plain_finding, within_days, elapsed_days, presented_by, day, one_if,
}

-- `credit_specific_presentation_days or configured_default`: zero days count as no days.
unfoldable pub allowed_days : Option ℤ → ℤ
allowed_days none = default_transport_presentation_days
allowed_days (some d) =
    if nat_beq (pos_part d + neg_part d) 0 then default_transport_presentation_days else d

-- `(presentation_date - shipment_date).days`
abbrev pub elapsed : (shipment_date presentation_date : Date) → ℤ
elapsed shipment_date presentation_date = sub_ℕ presentation_date shipment_date

module _ (h : Host) where
  unfoldable pub check_presentation_period :
      (is_original_transport_document : Bool) (shipment_date presentation_date expiry_date : Date)
      (credit_specific_presentation_days : Option ℤ) (document_id : String) (page_ref : Option ℕ)
      → List ComplianceFinding
  unfolding allowed_days
  check_presentation_period is_original shipment presentation expiry days document_id page_ref =
      one_if (is_original && ltb_ℤ (allowed_days days) (elapsed shipment presentation)) (
        plain_finding h art14c document_id "presentation_date" (within_days (allowed_days days))
          (elapsed_days (elapsed shipment presentation)) material page_ref)
      ++ one_if (ltb expiry presentation) (
          plain_finding h art14c document_id "expiry_date" (presented_by expiry) (day presentation)
            material page_ref)
