-- ===== src/Intake/Process.antt =====
-- apps/api/tradesentry_api/processor.py: `DocumentProcessor.process`.
pub mod Terminal
use Prim.Native.String.{◌++◌ as ◌+◌}
use trade_sentry.Prelude.{
  ℕ, String, Bool, true, false, ◌||◌, Option, none, some, List, [], ◌∷◌, ◌++◌, string_eq, ◌==◌,
  if◌then◌else◌,
}
use trade_sentry.Contracts.Documents.{
  DocumentType, DocumentStatus, unknown, letter_of_credit, type_beq, classified, extracting, failed,
}
use trade_sentry.Investigation.World.{Outcome, returned, raised}
use trade_sentry.Intake.{Value, RawOcrResult, Extraction, StoredDocument}
use trade_sentry.Intake.Upload.{UploadHost, classify_document}
use trade_sentry.Intake.Extract.{ExtractHost, build_extraction, is_partial}

-- What `process` awaits or calls outside: the store, the audit, pypdf, the OCR service, the fallback
-- and the scan for instructions. Each may raise.
pub record IntakeWorld : Type 0 where
  pub upload_host : UploadHost
  pub extract_host : ExtractHost
  pub save_document : StoredDocument → Outcome (Unit {0})
  pub audit : StoredDocument → (event_type suffix : String) → Outcome (Unit {0})
  pub page_count : (mime_type : String) → Outcome ℕ
  pub analyze_document : (s3_key : String) → DocumentType → ℕ → Outcome RawOcrResult
  pub reextract : RawOcrResult → DocumentType → Outcome (List (String × Value))
  pub injection_fingerprint : String → Option String

-- A part of `process` changes the document and may stop with an exception; `saved` has every version
-- of the document that the store took.
pub record Progress : Type 0 where
  pub document : StoredDocument
  pub saved : List StoredDocument

pub data Attempt {ℓ} (A : Type ℓ) : Type ℓ where
  went : A → Progress → Attempt A
  stopped : String → Progress → Attempt A

abbrev pub after {ℓ κ} :
    {A : Type ℓ} {B : Type κ} → Attempt A → (A → Progress → Attempt B) → Attempt B
after (went a q) f = f a q
after (stopped e q) f = stopped e q

infixl 5 ◌>>=◌
abbrev pub ◌>>=◌ {ℓ κ} :
    {A : Type ℓ} {B : Type κ}
    → (Progress → Attempt A)
    → (A → Progress → Attempt B)
    → Progress
    → Attempt B
(m >>= f) p = after (m p) f

abbrev pub awaited {ℓ} : {A : Type ℓ} → Outcome A → Progress → Attempt A
awaited (returned a) p = went a p
awaited (raised e) p = stopped e p

abbrev pub await {ℓ} : {A : Type ℓ} → (StoredDocument → Outcome A) → Progress → Attempt A
await operation p = awaited (operation p.document) p

-- an assignment to fields of the document
abbrev pub assign : (StoredDocument → StoredDocument) → Progress → Attempt (Unit {0})
assign f p = went tt (record p { document = f p.document })

module _ (w : IntakeWorld) where
  abbrev pub store : StoredDocument → List StoredDocument → Outcome (Unit {0}) → Attempt (Unit {0})
  store d saved (returned u) = went tt (record { document = d; saved = saved ++ d ∷ [] })
  store d saved (raised e) = stopped e (record { document = d; saved = saved })

  -- `repository.save_document`
  abbrev pub save : Progress → Attempt (Unit {0})
  save p = store p.document p.saved (w.save_document p.document)

  -- `_audit`
  abbrev pub audited : (event_type suffix : String) → Progress → Attempt (Unit {0})
  audited event_type suffix = await (λ d. w.audit d event_type suffix)

  abbrev pub skip : Progress → Attempt (Unit {0})
  skip p = went tt p

  abbrev pub when : Bool → (Progress → Attempt (Unit {0})) → Progress → Attempt (Unit {0})
  when b m p = if b then m p else went tt p

  -- the type by the file's name, which is saved, and the start of the extraction
  unfoldable pub classify : Progress → Attempt (Unit {0})
  classify =
      assign (λ d.
        let t = classify_document w.upload_host d.filename "" in
        record d {
          document_type = t;
          status = classified;
          advisory =
              if type_beq t unknown
              then some "Document type could not be identified; generic extraction used"
              else d.advisory;
        })
      >>= λ u1. save >>= λ u2. audited "DOCUMENT_CLASSIFIED" "classified" >>= λ u3.
          assign (λ d. record d { status = extracting }) >>= λ u4. save

  -- the answer of the OCR service
  unfoldable pub read_pages : Progress → Attempt RawOcrResult
  read_pages = await (λ d. w.page_count d.mime_type) >>= λ n.
      await (λ d. w.analyze_document d.s3_key d.document_type n)

  abbrev pub flag_injection : Option String → Progress → Attempt (Unit {0})
  flag_injection none p = went tt p
  flag_injection (some fingerprint) p =
      (assign (λ d. record d {
        advisory =
            some "Instruction-like document content was isolated and flagged for human review";
      })
          >>= λ u. audited "AGENT_DECISION" ("prompt-injection/" + fingerprint))
        p

  -- a type that the name does not give is looked for in the text
  abbrev pub retype : RawOcrResult → StoredDocument → StoredDocument
  retype raw d = record d {
    document_type =
        if type_beq d.document_type unknown
        then classify_document w.upload_host d.filename raw.full_text
        else d.document_type;
    textract_job_id = raw.job_id;
  }

  abbrev pub fallback : RawOcrResult → Progress → Attempt (List (String × Value))
  fallback raw p =
      if is_partial raw then await (λ d. w.reextract raw d.document_type) p else went [] p

  abbrev pub with_extraction : Extraction → StoredDocument → StoredDocument
  with_extraction e d = record d {
    extraction = some e;
    overall_confidence = some e.overall_confidence;
    status = e.processing_status;
  }

  abbrev pub lc_parsed : Progress → Attempt (Unit {0})
  lc_parsed p =
      when (type_beq p.document.document_type letter_of_credit) (audited "LC_PARSED" "lc-parsed") p

  -- the extraction is put into the document, which is saved
  unfoldable pub finish_extraction :
      RawOcrResult → (fallback_fields : List (String × Value)) → Progress → Attempt (Unit {0})
  finish_extraction raw fields =
      assign (λ d. with_extraction (build_extraction w.extract_host d raw fields) d) >>= λ u1.
      save >>= λ u2. audited "DOCUMENT_EXTRACTED" "extracted" >>= λ u3. lc_parsed

  -- from the answer of the OCR service on
  unfoldable pub extract : RawOcrResult → Progress → Attempt (Unit {0})
  extract raw = flag_injection (w.injection_fingerprint raw.full_text) >>= λ u1.
      assign (retype raw) >>= λ u2. fallback raw >>= λ fields. finish_extraction raw fields

  -- the body of the `try`
  unfoldable pub attempt : Progress → Attempt (Unit {0})
  attempt = classify >>= λ u. read_pages >>= extract

  abbrev pub error_code_of : (exception : String) → String
  error_code_of e = if e == "TimeoutError" then "DATA_UNAVAILABLE" else "EXTRACTION_FAILED"

  -- the handlers of the exceptions
  abbrev pub give_up : String → Progress → Attempt (Unit {0})
  give_up e =
      assign (λ d. record d { status = failed; error_code = some (error_code_of e) }) >>= λ u. save

  abbrev pub handled : Attempt (Unit {0}) → Attempt (Unit {0})
  handled (went u p) = went u p
  handled (stopped e p) = give_up e p

  unfoldable pub process : StoredDocument → Attempt (Unit {0})
  process d = handled (attempt (record { document = d; saved = [] }))
