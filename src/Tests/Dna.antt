-- ===== src/Tests/Dna.antt =====
-- The DNA of concrete documents.
use Prim.Native.String.{◌++◌ as ◌+◌}
use mathlib.Core.Bool.{false≢true}
use trade_sentry.Dna.{TransactionDna}
use trade_sentry.Prelude.Decimal.{eq}
use trade_sentry.Prelude.{String, ◌≡◌, ◌≢◌, ◌↔◌, refl, true, none, some, [], ◌∷◌, All, string_eq}
use trade_sentry.Prelude.Decimal.{decimal}
use trade_sentry.CrossIbu.Model.{signal_from_dna}
use trade_sentry.CrossIbu.Match.{find_best_match}
use trade_sentry.CrossIbu.Match.Best.{is_exact_level}
use trade_sentry.CrossIbu.Registry.{register, find_candidates}
use trade_sentry.CrossIbu.Registry.Duplicates.{register_all}
use trade_sentry.Dna.Normalization.{DnaHost, normalize_entity_name, normalize_quantity}
use trade_sentry.Dna.Normalization.Idempotent.{normalize_entity_name_idem}
use trade_sentry.Dna.Conflicts.{QuantityEntry, ReadQuantity, quantity_conflicts, read_quantities}
use trade_sentry.Dna.Conflicts.Exact.{quantity_conflicts-nil_iff}
use trade_sentry.Dna.Papers.{fingerprint_text}
use trade_sentry.Dna.Transaction.{build_transaction_dna}
use trade_sentry.Dna.Transaction.Identity.{fingerprint_text_ambiguous, same_papers_reported}
use trade_sentry.Dna.Transaction.Sources.{IsSourced, source_documents-All}
use trade_sentry.Tests.Data.{plain_match_host, signal_of, lading_extraction}

-- texts in the case they are in
abbrev pub dna_host : DnaHost
dna_host = record {
  casefold = λ s. s;
  upper = λ s. s;
  strip = λ s. s;
  str = λ d. "1";
  isoformat = λ d. "2026-01-01";
  quotient = λ a b. a;
  ratio = λ a b. decimal 0 0;
  sha256 = λ s. s;
}

normalize_entity_name_idem_example :
    normalize_entity_name dna_host (normalize_entity_name dna_host "acme trading co. ltd.")
    ≡ normalize_entity_name dna_host "acme trading co. ltd."
normalize_entity_name_idem_example =
    normalize_entity_name_idem dna_host (λ s k. refl) "acme trading co. ltd."

abbrev invoiced : QuantityEntry
invoiced = record { document_id = "D1"; value = some (decimal 2 0); unit = some "MT" }

abbrev shipped : QuantityEntry
shipped = record { document_id = "D2"; value = some (decimal 2000 0); unit = some "KG" }

abbrev read_invoiced : ReadQuantity
read_invoiced = record {
  document_id = "D1";
  canonical = decimal 2 0;
  canonical_unit = "MT";
  value = decimal 2 0;
  unit = "MT";
}

abbrev read_shipped : ReadQuantity
read_shipped = record {
  document_id = "D2";
  canonical = decimal 2000 3;
  canonical_unit = "MT";
  value = decimal 2000 0;
  unit = "KG";
}

quantities_read :
    read_quantities dna_host (invoiced ∷ shipped ∷ []) ≡ read_invoiced ∷ read_shipped ∷ []
unfolding read_quantities normalize_quantity
quantities_read = refl

quantity_conflicts-nil_iff_example :
    (quantity_conflicts dna_host (invoiced ∷ shipped ∷ []) ≡ [])
    ↔ All
        (λ b.
          (eq read_invoiced.canonical b.canonical ≡ true)
          × (read_invoiced.canonical_unit ≡ b.canonical_unit))
        (read_shipped ∷ [])
quantity_conflicts-nil_iff_example =
    quantity_conflicts-nil_iff dna_host (invoiced ∷ shipped ∷ []) read_invoiced (read_shipped ∷ [])
      quantities_read

fingerprint_text_ambiguous_example :
    fingerprint_text (some ("BL" + "1")) (some "ever") none none none none none
    ≡ fingerprint_text (some "BL") (some ("1" + "ever")) none none none none none
fingerprint_text_ambiguous_example =
    fingerprint_text_ambiguous "BL" "1" "ever" none none none none none

abbrev lading_dna : TransactionDna
lading_dna = build_transaction_dna dna_host "C-1" "SG" (lading_extraction ∷ []) 0

source_documents-All_example :
    All (IsSourced (lading_extraction ∷ []) lading_dna) lading_dna.source_documents
source_documents-All_example = source_documents-All dna_host "C-1" "SG" (lading_extraction ∷ []) 0

abbrev hong_kong : String
hong_kong = "HK"

abbrev singapore : String
singapore = "SG"

hk≢sg : hong_kong ≢ singapore
hk≢sg e = false≢true ((string_eq.beq_iff "HK" "SG").1 e)

same_papers_reported_example :
    is_exact_level (
      find_best_match plain_match_host
        (signal_from_dna (build_transaction_dna dna_host "C-2" "SG" (lading_extraction ∷ []) 1))
        (find_candidates
          (register_all plain_match_host
            (register plain_match_host []
              (signal_from_dna
                (build_transaction_dna dna_host "C-1" "HK" (lading_extraction ∷ []) 0))
              0).0
            ((signal_of "AE" "C-3", 1) ∷ []))
          (signal_from_dna (build_transaction_dna dna_host "C-2" "SG" (lading_extraction ∷ []) 1)))
        2)
    ≡ true
same_papers_reported_example =
    same_papers_reported dna_host plain_match_host [] "C-1" "HK" "C-2" "SG" (lading_extraction ∷ [])
      (lading_extraction ∷ []) 0 1 2 ((signal_of "AE" "C-3", 1) ∷ []) hk≢sg refl
