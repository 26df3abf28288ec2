-- ===== src/Api/Matching.antt =====
-- apps/api/tradesentry_api/dna_api.py, cross_ibu_api.py and dna_store.py.
use Prim.Native.String.{◌++◌ as ◌+◌}
use trade_sentry.Prelude.{
  String, Option, none, some, List, [], ◌∷◌, ◌++◌, find, string_eq, ◌==◌, if◌then◌else◌,
}
use trade_sentry.Contracts.Extraction.{ExtractionResult}
use trade_sentry.Dna.{TransactionDna}
use trade_sentry.Dna.Transaction.{build_transaction_dna}
use trade_sentry.CrossIbu.Model.{
  RegistrySignal, RegistryRegistration, CrossIbuMatch, signal_from_dna,
}
use trade_sentry.CrossIbu.Match.{find_best_match}
use trade_sentry.CrossIbu.Registry.{register, find_candidates}
use trade_sentry.Intake.{StoredDocument, Extraction}
use trade_sentry.Api.{
  ApiHost, Request, Handler, ◌>>=◌, ◌>>◌, pure, abort, modify, gets, admin, require_roles,
  case_or_404, audit, transaction_dna_built, cross_ibu_queried, cross_ibu_registered, auth_failure,
}
use trade_sentry.Api.Documents.{documents_of, found_or_404}

-- the extractions of the documents that have one
abbrev pub extraction_or_none : Option Extraction → List ExtractionResult
extraction_or_none none = []
extraction_or_none (some e) = e.result ∷ []

unfoldable pub extractions_of : List StoredDocument → List ExtractionResult
extractions_of [] = []
extractions_of (d ∷ ds) = extraction_or_none d.extraction ++ extractions_of ds

abbrev pub some_or_422 : List ExtractionResult → Handler (List ExtractionResult)
some_or_422 [] = abort 422 "Extracted document fields are required"
some_or_422 (e ∷ es) = pure (e ∷ es)

-- `self.results[dna.case_id] = dna`
abbrev pub put_dna : TransactionDna → List TransactionDna → List TransactionDna
put_dna d [] = d ∷ []
put_dna d (x ∷ xs) = let rest = put_dna d xs in if x.case_id == d.case_id then d ∷ xs else x ∷ rest

abbrev pub get_dna : (case_id : String) → List TransactionDna → Option TransactionDna
get_dna case_id = find (λ d. d.case_id == case_id)

module _ (h : ApiHost) where
  unfoldable pub create_transaction_dna : Request → (case_id : String) → Handler TransactionDna
  create_transaction_dna r case_id = do
    require_roles r.principal (admin ∷ [])
    c ← case_or_404 r.principal case_id
    documents ← gets (λ s. documents_of case_id s.documents)
    extractions ← some_or_422 (extractions_of documents)
    let result = build_transaction_dna h.dna_host case_id c.ibu_id extractions r.now
    modify (λ s. record s { dnas = put_dna result s.dnas })
    audit h r transaction_dna_built case_id ("dna://" + result.transaction_id)
    pure result

  unfoldable pub get_transaction_dna : Request → (case_id : String) → Handler TransactionDna
  get_transaction_dna r case_id = do
    _ ← case_or_404 r.principal case_id
    found ← gets (λ s. get_dna case_id s.dnas)
    found_or_404 "Transaction DNA not found" found

  -- a foreign DNA is refused, and the refusal put on record
  abbrev pub own_signal : Request → (case_id : String) → TransactionDna → Handler RegistrySignal
  own_signal r case_id dna = λ s.
      if dna.presenting_ibu == r.principal.ibu_id
      then pure (signal_from_dna dna) s
      else (audit h r auth_failure case_id ("auth://ibu-denied/" + case_id)
            >> abort 403 "IBU tenant access denied")
          s

  unfoldable pub authorized_signal : Request → (case_id : String) → Handler RegistrySignal
  authorized_signal r case_id = do
    found ← gets (λ s. get_dna case_id s.dnas)
    dna ← found_or_404 "Transaction DNA not found" found
    own_signal r case_id dna

  unfoldable pub register_transaction : Request → (case_id : String) → Handler RegistryRegistration
  register_transaction r case_id = do
    require_roles r.principal (admin ∷ [])
    signal ← authorized_signal r case_id
    registration ← gets (λ s. (register h.match_host s.registry signal r.now).1)
    modify (λ s. record s { registry = (register h.match_host s.registry signal r.now).0 })
    audit h r cross_ibu_registered case_id ("registry://" + registration.registration_id)
    pure registration

  unfoldable pub query_registry : Request → (case_id : String) → Handler CrossIbuMatch
  query_registry r case_id = do
    require_roles r.principal ("COMPLIANCE_MANAGER" ∷ admin ∷ [])
    signal ← authorized_signal r case_id
    candidates ← gets (λ s. find_candidates s.registry signal)
    let result = find_best_match h.match_host signal candidates r.now
    audit h r cross_ibu_queried case_id ("match://" + result.match_id)
    pure result
