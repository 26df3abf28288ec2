-- ===== src/Intake/Process/Terminal.antt =====
-- apps/api/tradesentry_api/processor.py: how the processing of a document ends.
use mathlib.Core.Path.{subst}
use trade_sentry.Prelude.{
  String, ◌≡◌, refl, sym, ap, ◌∙◌, false, Option, none, some, List, [], arith, Bool-cases, inl, inr,
}
use trade_sentry.Prelude.Decimal.{lt}
use trade_sentry.Contracts.Documents.{
  DocumentStatus, extracted, partially, failed, letter_of_credit, type_beq,
}
use trade_sentry.Contracts.Extraction.{ExtractedFields}
use trade_sentry.Investigation.World.{Outcome, returned, raised}
use trade_sentry.Intake.{Value, RawOcrResult, Extraction, StoredDocument}
use trade_sentry.Intake.Extract.{
  ExtractHost, low_confidence, is_partial, status_of, build_extraction, typed_fields, with_answers,
  answered,
}
use trade_sentry.Intake.Process.{
  IntakeWorld, Progress, Attempt, went, stopped, after, awaited, store, audited, classify,
  read_pages, flag_injection, retype, fallback, with_extraction, lc_parsed, finish_extraction,
  error_code_of, extract, attempt, handled, process,
}

-- If the attempt goes through, its result and progress have the property.
abbrev pub Holds {ℓ} : {A : Type ℓ} → (A → Progress → Type 0) → Attempt A → Type 0
Holds Q (went a q) = Q a q
Holds Q (stopped e q) = Unit

Holds-after {ℓ κ} :
    {A : Type ℓ} {B : Type κ} (Q : B → Progress → Type 0) (o : Attempt A)
    (f : A → Progress → Attempt B)
    → Holds (λ a q. Holds Q (f a q)) o
    → Holds Q (after o f)
Holds-after Q (went a q) f h = h
Holds-after Q (stopped e q) f h = tt

-- what holds whatever came before
Holds-any {ℓ} :
    {A : Type ℓ} (Q : A → Progress → Type 0) (o : Attempt A)
    → ((a : A) (q : Progress) → Q a q)
    → Holds Q o
Holds-any Q (went a q) h = h a q
Holds-any Q (stopped e q) h = tt

Holds-awaited {ℓ} :
    {A : Type ℓ} (R : StoredDocument → Type 0) (o : Outcome A) (p : Progress)
    → R p.document
    → Holds (λ a q. R q.document) (awaited o p)
Holds-awaited R (returned a) p r = r
Holds-awaited R (raised e) p r = tt

abbrev pub IsConfident : Option Extraction → Type 0
IsConfident none = ⊥
IsConfident (some e) = lt e.overall_confidence low_confidence ≡ false

abbrev pub IsGiven {ℓ} : {A : Type ℓ} → Option A → Type 0
IsGiven none = ⊥
IsGiven (some a) = Unit

-- A status in which nothing is left to do, with what the document then has: an extraction, of a
-- confidence of at least 0.70 if it is whole, or an error code.
abbrev pub IsSettled : DocumentStatus → StoredDocument → Type 0
IsSettled extracted d = IsConfident d.extraction
IsSettled partially d = IsGiven d.extraction
IsSettled failed d = IsGiven d.error_code
IsSettled _ d = ⊥

abbrev pub progress_of {ℓ} : {A : Type ℓ} → Attempt A → Progress
progress_of (went a q) = q
progress_of (stopped e q) = q

abbrev IsDone : Progress → Type 0
IsDone p = IsSettled p.document.status p.document

is_partial-confident :
    (raw : RawOcrResult) → is_partial raw ≡ false → lt raw.overall_confidence low_confidence ≡ false
unfolding is_partial
is_partial-confident raw e = ground (arith, e)

IsConfident-same :
    (e : Extraction) (raw : RawOcrResult)
    → e.overall_confidence ≡ raw.overall_confidence
    → is_partial raw ≡ false
    → IsConfident (some e)
IsConfident-same e raw same f = ap (λ x. lt x low_confidence) same ∙ is_partial-confident raw f

Holds-mono {ℓ} :
    {A : Type ℓ} {Q : A → Progress → Type 0} (R : A → Progress → Type 0) (o : Attempt A)
    → Holds R o
    → ((a : A) (q : Progress) → R a q → Q a q)
    → Holds Q o
Holds-mono R (went a q) h f = f a q h
Holds-mono R (stopped e q) h f = tt

module _ (h : ExtractHost) where
  status-IsSettled :
      (raw : RawOcrResult) (fields : Option ExtractedFields) (e : Extraction) (d : StoredDocument)
      → e.overall_confidence ≡ raw.overall_confidence
      → d.extraction ≡ some e
      → IsSettled (status_of h raw fields) d
  status-IsSettled raw none e d same given = subst IsGiven (sym given) tt
  status-IsSettled raw (some f) e d same given = elim (Bool-cases (is_partial raw)) [
    | inl k ↦ rw k (subst IsGiven (sym given) tt)
    | inr k ↦ rw k (subst IsConfident (sym given) (IsConfident-same e raw same k))
  ]

  built-IsDone :
      (d : StoredDocument) (raw : RawOcrResult) (values : List (String × Value)) (w : IntakeWorld)
      (p : Progress)
      → let e : Extraction = build_extraction h d raw values in
        IsSettled e.processing_status (with_extraction w e p.document)
  unfolding build_extraction
  built-IsDone d raw values w p =
      status-IsSettled raw
        (typed_fields h d.document_type (with_answers h (answered h raw.query_results []) values))
        (build_extraction h d raw values)
        (with_extraction w (build_extraction h d raw values) p.document) refl refl

module _ (w : IntakeWorld) where
  -- what follows the save of the extraction
  abbrev after_save : Progress → Attempt (Unit {0})
  after_save p = after (audited w "DOCUMENT_EXTRACTED" "extracted" p) (λ u. lc_parsed w)

  Holds-store :
      (R : StoredDocument → Type 0) (d : StoredDocument) (saved : List StoredDocument)
      (o : Outcome (Unit {0}))
      → R d
      → Holds (λ a q. R q.document) (store w d saved o)
  Holds-store R d saved (returned u) r = r
  Holds-store R d saved (raised e) r = tt

  Holds-lc_parsed :
      (R : StoredDocument → Type 0) (p : Progress)
      → R p.document
      → Holds (λ a q. R q.document) (lc_parsed w p)
  Holds-lc_parsed R p r = elim (Bool-cases (type_beq p.document.document_type letter_of_credit)) [
    | inl e ↦ rw e (Holds-awaited R (w.audit p.document "LC_PARSED" "lc-parsed") p r)
    | inr e ↦ rw e r
  ]

  after_save-IsDone : (p : Progress) → IsDone p → Holds (λ a q. IsDone q) (after_save p)
  after_save-IsDone p k =
      Holds-after (λ a q. IsDone q) (audited w "DOCUMENT_EXTRACTED" "extracted" p)
        (λ u. lc_parsed w)
        (Holds-mono {Q = λ a q. Holds (λ b r. IsDone r) (lc_parsed w q)} (λ a q. IsDone q)
          (audited w "DOCUMENT_EXTRACTED" "extracted" p)
          (Holds-awaited (λ x. IsSettled x.status x)
            (w.audit p.document "DOCUMENT_EXTRACTED" "extracted") p k)
          (λ a q r. Holds-lc_parsed (λ x. IsSettled x.status x) q r))

  finish-IsDone :
      (raw : RawOcrResult) (fields : List (String × Value)) (p : Progress)
      → Holds (λ a q. IsDone q) (finish_extraction w raw fields p)
  unfolding finish_extraction
  finish-IsDone raw fields p =
      let e = build_extraction w.extract_host p.document raw fields in
      let d = with_extraction w e p.document in
      Holds-after (λ a q. IsDone q) (store w d p.saved (w.save_document d)) (λ u. after_save)
        (Holds-mono {Q = λ a q. Holds (λ b r. IsDone r) (after_save q)} (λ a q. IsDone q)
          (store w d p.saved (w.save_document d))
          (Holds-store (λ x. IsSettled x.status x) d p.saved (w.save_document d)
            (built-IsDone w.extract_host p.document raw fields w p))
          (λ a q r. after_save-IsDone q r))

  extract-IsDone : (raw : RawOcrResult) (p : Progress) → Holds (λ a q. IsDone q) (extract w raw p)
  unfolding extract
  extract-IsDone raw p =
      Holds-after (λ a q. IsDone q) (flag_injection w (w.injection_fingerprint raw.full_text) p) _
        (Holds-any _ (flag_injection w (w.injection_fingerprint raw.full_text) p) (λ u q.
          let r = record q { document = retype w raw q.document } in
          Holds-after (λ a x. IsDone x) (fallback w raw r)
            (λ fields. finish_extraction w raw fields)
            (Holds-any (λ fields x. Holds (λ a y. IsDone y) (finish_extraction w raw fields x))
              (fallback w raw r) (λ fields x. finish-IsDone raw fields x))))

  attempt-IsDone : (p : Progress) → Holds (λ a q. IsDone q) (attempt w p)
  unfolding attempt
  attempt-IsDone p =
      Holds-after (λ a q. IsDone q) (classify w p) (λ u. λ q. after (read_pages w q) (extract w))
        (Holds-any (λ u q. Holds (λ a r. IsDone r) (after (read_pages w q) (extract w)))
          (classify w p)
          (λ u q.
            Holds-after (λ a r. IsDone r) (read_pages w q) (extract w)
              (Holds-any (λ raw r. Holds (λ a x. IsDone x) (extract w raw r)) (read_pages w q)
                (λ raw r. extract-IsDone raw r))))

  store-document :
      (d : StoredDocument) (saved : List StoredDocument) (o : Outcome (Unit {0}))
      → (progress_of (store w d saved o)).document ≡ d
  store-document d saved (returned u) = refl
  store-document d saved (raised e) = refl

  handled-IsDone :
      (o : Attempt (Unit {0})) → Holds (λ a q. IsDone q) o → IsDone (progress_of (handled w o))
  handled-IsDone (went u q) k = k
  handled-IsDone (stopped e q) k =
      let d = record q.document { status = failed; error_code = some (error_code_of w e) } in
      subst (λ x. IsSettled x.status x) (sym (store-document d q.saved (w.save_document d))) tt

  -- However the services answer or fail, the processing of a document ends in one of three states: it
  -- is extracted, with a confidence of at least 0.70, it is partly extracted, or it has failed with an
  -- error code.
  pub process-IsSettled :
      (d : StoredDocument)
      → let q : StoredDocument = (progress_of (process w d)).document in IsSettled q.status q
  unfolding process
  process-IsSettled d =
      handled-IsDone (attempt w (record { document = d; saved = [] }))
        (attempt-IsDone (record { document = d; saved = [] }))
