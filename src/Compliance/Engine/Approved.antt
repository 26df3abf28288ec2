-- ===== src/Compliance/Engine/Approved.antt =====
-- The rules that the findings of each check cite.
use trade_sentry.Prelude.{
  ℕ, String, ◌≡◌, refl, Bool, true, false, Option, none, some, List, [], ◌∷◌, ◌++◌, All, All-append,
  Bool-cases, inl, inr,
}
use trade_sentry.Prelude.Int.{ℤ}
use trade_sentry.Prelude.Decimal.{Decimal, eq}
use trade_sentry.Prelude.Text.{eq_codes}
use trade_sentry.Contracts.Fields.{
  Date, CommercialInvoiceFields, BillOfLadingFields, InsuranceCertificateFields,
}
use trade_sentry.Compliance.Model.{
  Rule, rule, Severity, Evidence, LcRequirements, ComplianceFinding,
}
use trade_sentry.Compliance.Finding.{Host, Phrase, finding, plain_finding, normalize, one_if}
use trade_sentry.Compliance.Consistency.{check_string_consistency, check_numeric_consistency}
use trade_sentry.Compliance.Amounts.{
  check_credit_amount_tolerance, check_quantity_tolerance, in_band, quantity_tolerance,
}
use trade_sentry.Compliance.Period.{check_presentation_period}
use trade_sentry.Compliance.Papers.{
  check_currency, check_not_later, check_invoice_amount, check_commercial_invoice,
  check_bill_of_lading, check_coverage, check_insured_shipment, check_insurance,
  check_partial_shipments,
}

-- a finding that cites a rule of the configuration file
pub record IsCited (f : ComplianceFinding) : Type 0 where
  pub key : Rule
  pub same : f.rule_id ≡ (rule key).rule_id

pub record AllCited (fs : List ComplianceFinding) : Type 0 where
  pub each : All IsCited fs

pub nil-AllCited : AllCited []
nil-AllCited = record { each = tt }

one-AllCited : {f : ComplianceFinding} → IsCited f → AllCited (f ∷ [])
one-AllCited c = record { each = (c, tt) }

pub join-AllCited :
    {xs ys : List ComplianceFinding} → AllCited xs → AllCited ys → AllCited (xs ++ ys)
join-AllCited {xs = xs} {ys = ys} a b = record { each = All-append IsCited xs ys a.each b.each }

one_if-AllCited : (b : Bool) {f : ComplianceFinding} → IsCited f → AllCited (one_if b f)
one_if-AllCited true c = one-AllCited c
one_if-AllCited false c = nil-AllCited

module _ (h : Host) where
  finding-IsCited :
      (r : Rule) (d n : String) (e a : Phrase) (s : Severity) (p : Option ℕ) (v : Evidence)
      → IsCited (finding h r d n e a s p v)
  unfolding finding
  finding-IsCited r d n e a s p v = record { key = r; same = refl }

  plain-IsCited :
      (r : Rule) (d n : String) (e a : Phrase) (s : Severity) (p : Option ℕ)
      → IsCited (plain_finding h r d n e a s p)
  unfolding plain_finding
  plain-IsCited r d n e a s p = record { key = r; same = refl }

  one_if-plain :
      (b : Bool) (r : Rule) (d n : String) (e a : Phrase) (s : Severity) (p : Option ℕ)
      → AllCited (one_if b (plain_finding h r d n e a s p))
  one_if-plain b r d n e a s p = one_if-AllCited b (plain-IsCited r d n e a s p)

  pub string_check-AllCited :
      (e a : Option String) (d n : String) (r : Rule) (p : Option ℕ)
      → AllCited (check_string_consistency h e a d n r p)
  unfolding check_string_consistency
  string_check-AllCited none a d n r p = nil-AllCited
  string_check-AllCited (some e) none d n r p = nil-AllCited
  string_check-AllCited (some e) (some a) d n r p =
      elim (Bool-cases (eq_codes (normalize h e) (normalize h a))) [
        | inl q ↦ rw q nil-AllCited
        | inr q ↦ rw q (one-AllCited (finding-IsCited _ _ _ _ _ _ _ _))
      ]

  pub numeric_check-AllCited :
      (e a : Option Decimal) (d n : String) (p : Option ℕ)
      → AllCited (check_numeric_consistency h e a d n p)
  unfolding check_numeric_consistency
  numeric_check-AllCited none a d n p = nil-AllCited
  numeric_check-AllCited (some e) none d n p = nil-AllCited
  numeric_check-AllCited (some e) (some a) d n p = elim (Bool-cases (eq e a)) [
    | inl q ↦ rw q nil-AllCited
    | inr q ↦ rw q (one-AllCited (plain-IsCited _ _ _ _ _ _ _))
  ]

  amount_check-AllCited :
      (c i d : Decimal) (about : Bool) (doc : String) (p : Option ℕ)
      → AllCited (check_credit_amount_tolerance h c i d about doc p)
  unfolding check_credit_amount_tolerance
  amount_check-AllCited c i d about doc p =
      join-AllCited (one_if-plain _ _ _ _ _ _ _ _) (one_if-plain _ _ _ _ _ _ _ _)

  pub quantity_check-AllCited :
      (q x : Decimal) (bulk within : Bool) (doc : String) (p : Option ℕ)
      → AllCited (check_quantity_tolerance h q x bulk within doc p)
  unfolding check_quantity_tolerance
  quantity_check-AllCited q x bulk within doc p =
      elim (Bool-cases (in_band q (quantity_tolerance bulk within) x)) [
        | inl e ↦ rw e nil-AllCited
        | inr e ↦ rw e (one-AllCited (plain-IsCited _ _ _ _ _ _ _))
      ]

  pub period_check-AllCited :
      (o : Bool) (s p e : Date) (days : Option ℤ) (doc : String) (page : Option ℕ)
      → AllCited (check_presentation_period h o s p e days doc page)
  unfolding check_presentation_period
  period_check-AllCited o s p e days doc page =
      join-AllCited (one_if-plain _ _ _ _ _ _ _ _) (one_if-plain _ _ _ _ _ _ _ _)

  currency-AllCited :
      (e a : Option String) (doc : String) (r : Rule) → AllCited (check_currency h e a doc r)
  unfolding check_currency
  currency-AllCited (some e) (some a) doc r = one_if-plain _ _ _ _ _ _ _ _
  currency-AllCited (some e) none doc r = nil-AllCited
  currency-AllCited none a doc r = nil-AllCited

  not_later-AllCited :
      (l a : Option Date) (doc n : String) (r : Rule) → AllCited (check_not_later h l a doc n r)
  unfolding check_not_later
  not_later-AllCited (some l) (some a) doc n r = one_if-plain _ _ _ _ _ _ _ _
  not_later-AllCited (some l) none doc n r = nil-AllCited
  not_later-AllCited none a doc n r = nil-AllCited

  invoice_amount-AllCited :
      (c i d : Option Decimal) (about : Bool) (doc : String)
      → AllCited (check_invoice_amount h c i d about doc)
  unfolding check_invoice_amount
  invoice_amount-AllCited (some c) (some i) none about doc =
      amount_check-AllCited c i i about doc none
  invoice_amount-AllCited (some c) (some i) (some d) about doc =
      amount_check-AllCited c i d about doc none
  invoice_amount-AllCited (some c) none d about doc = nil-AllCited
  invoice_amount-AllCited none i d about doc = nil-AllCited

  coverage-AllCited : (i c : Option Decimal) (doc : String) → AllCited (check_coverage h i c doc)
  unfolding check_coverage
  coverage-AllCited (some i) (some c) doc = one_if-plain _ _ _ _ _ _ _ _
  coverage-AllCited (some i) none doc = nil-AllCited
  coverage-AllCited none c doc = nil-AllCited

  pub commercial_invoice-AllCited :
      (lc : LcRequirements) (i : CommercialInvoiceFields) (d : Option Decimal) (doc : String)
      → AllCited (check_commercial_invoice h lc i d doc)
  unfolding check_commercial_invoice
  commercial_invoice-AllCited lc i d doc = join-AllCited (string_check-AllCited _ _ _ _ _ _) (
      join-AllCited (currency-AllCited _ _ _ _)
        (join-AllCited (string_check-AllCited _ _ _ _ _ _) (invoice_amount-AllCited _ _ _ _ _)))

  pub bill_of_lading-AllCited :
      (lc : LcRequirements) (bl : BillOfLadingFields) (doc : String)
      → AllCited (check_bill_of_lading h lc bl doc)
  unfolding check_bill_of_lading
  bill_of_lading-AllCited lc bl doc = join-AllCited (one_if-plain _ _ _ _ _ _ _ _) (
      join-AllCited (string_check-AllCited _ _ _ _ _ _) (
        join-AllCited (string_check-AllCited _ _ _ _ _ _)
          (join-AllCited (not_later-AllCited _ _ _ _ _) (one_if-plain _ _ _ _ _ _ _ _))))

  insured_shipment-AllCited :
      (bl : Option BillOfLadingFields) (i : InsuranceCertificateFields) (doc : String)
      → AllCited (check_insured_shipment h bl i doc)
  unfolding check_insured_shipment
  insured_shipment-AllCited none i doc = nil-AllCited
  insured_shipment-AllCited (some bl) i doc = join-AllCited (not_later-AllCited _ _ _ _ _) (
      join-AllCited (string_check-AllCited _ _ _ _ _ _) (
        join-AllCited (string_check-AllCited _ _ _ _ _ _)
          (join-AllCited (string_check-AllCited _ _ _ _ _ _) (string_check-AllCited _ _ _ _ _ _))))

  pub partial_shipments-AllCited :
      (lc : LcRequirements) (bl : BillOfLadingFields) (doc : String)
      → AllCited (check_partial_shipments h lc bl doc)
  unfolding check_partial_shipments
  partial_shipments-AllCited lc bl doc = one_if-plain _ _ _ _ _ _ _ _

  pub insurance_check-AllCited :
      (lc : LcRequirements) (i : CommercialInvoiceFields) (c : InsuranceCertificateFields)
      (bl : Option BillOfLadingFields) (doc : String)
      → AllCited (check_insurance h lc i c bl doc)
  unfolding check_insurance
  insurance_check-AllCited lc i c bl doc =
      join-AllCited (coverage-AllCited _ _ _)
        (join-AllCited (currency-AllCited _ _ _ _) (insured_shipment-AllCited _ _ _))
