-- ===== src/Compliance/Consistency/Grading.antt =====
-- What the comparison of two texts reports.
use trade_sentry.Prelude.{ℕ, String, ◌≡◌, refl, ◌↔◌, true, false, Option, none, some, any, arith}
use trade_sentry.Prelude.Decimal.{le}
use trade_sentry.Prelude.Text.{eq_codes}
use trade_sentry.Compliance.Model.{Rule, fuzzy_advisory_threshold, is_material_finding}
use trade_sentry.Compliance.Finding.{Host, normalize}
use trade_sentry.Compliance.Consistency.{check_string_consistency, similarity}

-- Two texts are reported as a material conflict exactly when both are given, their normal forms
-- differ, and their similarity is below the advisory threshold.
pub string_check-material_iff :
    (h : Host) (expected actual : Option String) (document_id field_name : String) (r : Rule)
    (page_ref : Option ℕ)
    → (any is_material_finding
          (check_string_consistency h expected actual document_id field_name r page_ref)
        ≡ true)
      ↔ ((e : String) × (a : String) × (expected ≡ some e)
          × (actual ≡ some a)
          × (eq_codes (normalize h e) (normalize h a) ≡ false)
          × (le fuzzy_advisory_threshold (similarity h e a) ≡ false))
unfolding check_string_consistency
string_check-material_iff h none a d f r p = (λ e. cc, λ t. let (e, b, q, u, v, w) = t in cc)
string_check-material_iff h (some e) none d f r p = (λ e. cc, λ t. let (e, b, q, u, v, w) = t in cc)
string_check-material_iff h (some e) (some a) d f r p = (
  λ m. (e, a, refl, refl, ground arith, ground arith),
  λ t. let (e', b, q, u, v, w) = t in ground arith,
)
