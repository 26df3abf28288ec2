-- ===== src/Compliance/Period/Deadlines.antt =====
-- When the presentation check reports nothing.
use trade_sentry.Prelude.{
  ℕ, ◌+◌, ◌≤◌, ◌<◌, ◌≡◌, ◌↔◌, String, Bool, true, false, Option, none, some, [], ◌&&◌, refl, arith,
  any, any-append_right, lt→ltb,
}
use trade_sentry.Prelude.Int.{ℤ, pos, ltb_ℤ}
use trade_sentry.Contracts.Fields.{Date}
use trade_sentry.Compliance.Finding.{Host, plain_finding, one_if, within_days, elapsed_days}
use trade_sentry.Compliance.Model.{art14c, material, is_material_finding}
use trade_sentry.Compliance.Period.{check_presentation_period, allowed_days, elapsed}

-- The days that the credit allows: 21, unless it names a number of days that is not zero.
pub data Limit : Option ℤ → ℕ → Type 0 where
  default_limit : Limit none 21
  zero_days : Limit (some (pos 0)) 21
  specific : {d : ℕ} → 0 < d → Limit (some (pos d)) d

module _ (h : Host) (document_id : String) (page_ref : Option ℕ) where
  -- The check reports nothing exactly when the presentation is on or before the expiry date and, for
  -- an original transport document, within the allowed days of the shipment. The two are independent.
  pub period_check-nil_iff :
      (is_original : Bool) (shipment presentation expiry : Date) {days : Option ℤ} {limit : ℕ}
      → Limit days limit
      → (check_presentation_period h is_original shipment presentation expiry days document_id
            page_ref
          ≡ [])
        ↔ ((is_original ≡ true → presentation ≤ shipment + limit) × (presentation ≤ expiry))
  unfolding check_presentation_period
  period_check-nil_iff true s p e default_limit = ground arith
  period_check-nil_iff true s p e zero_days = ground arith
  period_check-nil_iff true s p e (specific d) = ground arith
  period_check-nil_iff false s p e l = ground arith

-- A presentation after the expiry date is reported whatever the days since the shipment.
pub late_check :
    (h : Host) (is_original : Bool) (shipment presentation expiry : Date) (days : Option ℤ)
    (document_id : String) (page_ref : Option ℕ)
    → expiry < presentation
    → any is_material_finding (
        check_presentation_period h is_original shipment presentation expiry days document_id
          page_ref)
      ≡ true
unfolding check_presentation_period plain_finding
late_check h o s p e days doc page late =
    any-append_right is_material_finding
      (one_if (o && ltb_ℤ (allowed_days days) (elapsed s p)) (
        plain_finding h art14c doc "presentation_date" (within_days (allowed_days days))
          (elapsed_days (elapsed s p)) material page))
      _ (rw (lt→ltb e p late) refl)
