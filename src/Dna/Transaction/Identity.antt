-- ===== src/Dna/Transaction/Identity.antt =====
-- dna/builder.py: what a case's DNA shares with another's, and where its sources come from.
use Prim.Native.String.{◌++◌ as ◌+◌}
use text.Mathlib.TextLemmas.{append_assoc}
use trade_sentry.Prelude.{ℕ, String, ◌≡◌, ◌≢◌, sym, ap, ◌∙◌, true, Option, some, List}
use trade_sentry.Contracts.Extraction.{ExtractionResult}
use trade_sentry.CrossIbu.Model.{RegistrySignal, MatchHost, signal_from_dna}
use trade_sentry.CrossIbu.Match.{find_best_match}
use trade_sentry.CrossIbu.Match.Best.{is_exact_level}
use trade_sentry.CrossIbu.Registry.{Registry, register, find_candidates}
use trade_sentry.CrossIbu.Registry.Duplicates.{register_all, duplicate_reported}
use trade_sentry.Dna.Normalization.{DnaHost}
use trade_sentry.Dna.Papers.{papers_of, raw_fields, fingerprint_text, value_or_empty}
use trade_sentry.Dna.Builder.{normalized_of, fingerprint_of}
use trade_sentry.Dna.Transaction.{build_transaction_dna}

-- the text behind the vessel's name
abbrev rest_text : (voyage loading_port discharge_port date exporter : Option String) → String
rest_text voyage loading_port discharge_port date exporter =
    value_or_empty voyage
    + (value_or_empty loading_port
        + (value_or_empty discharge_port + (value_or_empty date + value_or_empty exporter)))

-- The parts of the fingerprint are joined without a separator, so that two shipments which differ in
-- where the bill's number ends and the vessel's name begins have the same text to digest.
pub fingerprint_text_ambiguous :
    (a b c : String) (voyage loading_port discharge_port date exporter : Option String)
    → fingerprint_text (some (a + b)) (some c) voyage loading_port discharge_port date exporter
      ≡ fingerprint_text (some a) (some (b + c)) voyage loading_port discharge_port date exporter
unfolding fingerprint_text
fingerprint_text_ambiguous a b c voyage loading_port discharge_port date exporter =
    append_assoc a b (c + rest_text voyage loading_port discharge_port date exporter)
    ∙ ap (λ t. a + t)
        (sym (append_assoc b c (rest_text voyage loading_port discharge_port date exporter)))

module _ (h : DnaHost) where
  -- The fingerprint is taken from the documents alone.
  build-fingerprint :
      (c1 ibu1 c2 ibu2 : String) (es fs : List ExtractionResult) (t1 t2 : ℕ)
      → normalized_of h (papers_of es) (raw_fields (papers_of es))
        ≡ normalized_of h (papers_of fs) (raw_fields (papers_of fs))
      → (build_transaction_dna h c1 ibu1 es t1).dna_fingerprint
        ≡ (build_transaction_dna h c2 ibu2 fs t2).dna_fingerprint
  unfolding build_transaction_dna
  build-fingerprint c1 ibu1 c2 ibu2 es fs t1 t2 e = ap (λ n. fingerprint_of h n) e

  presenting :
      (c1 ibu1 c2 ibu2 : String) (es fs : List ExtractionResult) (t1 t2 : ℕ)
      → ibu1 ≢ ibu2
      → (build_transaction_dna h c1 ibu1 es t1).presenting_ibu
        ≢ (build_transaction_dna h c2 ibu2 fs t2).presenting_ibu
  unfolding build_transaction_dna
  presenting c1 ibu1 c2 ibu2 es fs t1 t2 ne = ne

  -- Documents with the same normalized names, numbers, ports and date that are presented to two
  -- IBUs: once the DNA of the first is in the registry, and whatever is registered after that, the
  -- query with the second's DNA is answered EXACT.
  pub same_papers_reported :
      (m : MatchHost) (items : Registry) (c1 ibu1 c2 ibu2 : String) (es fs : List ExtractionResult)
      (t1 t2 now : ℕ) (later : List (RegistrySignal × ℕ))
      → ibu1 ≢ ibu2
      → normalized_of h (papers_of es) (raw_fields (papers_of es))
        ≡ normalized_of h (papers_of fs) (raw_fields (papers_of fs))
      → is_exact_level (
          find_best_match m
            (signal_from_dna (build_transaction_dna h c2 ibu2 fs t2))
            (find_candidates
              (register_all m
                (register m items (signal_from_dna (build_transaction_dna h c1 ibu1 es t1)) t1).0
                later)
              (signal_from_dna (build_transaction_dna h c2 ibu2 fs t2)))
            now)
        ≡ true
  unfolding signal_from_dna
  same_papers_reported m items c1 ibu1 c2 ibu2 es fs t1 t2 now later ne e =
      let first = build_transaction_dna h c1 ibu1 es t1 in
      let second = build_transaction_dna h c2 ibu2 fs t2 in
      duplicate_reported m items (signal_from_dna first) t1 later (signal_from_dna second) now
        (presenting c1 ibu1 c2 ibu2 es fs t1 t2 ne)
        (sym (build-fingerprint c1 ibu1 c2 ibu2 es fs t1 t2 e))
