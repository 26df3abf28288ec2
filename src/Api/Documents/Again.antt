-- ===== src/Api/Documents/Again.antt =====
-- A file that is uploaded again.
use Prim.Native.String.{◌++◌ as ◌+◌}
use mathlib.Core.Path.{subst}
use trade_sentry.Prelude.{
  ℕ, suc, String, ◌≡◌, refl, ap, ◌∙◌, sym, Bool, true, ◌&&◌, Option, none, some, List, [], ◌∷◌,
  find, arith, Bool-cases, inl, inr, string_eq, ◌==◌, Option-cases, ◌⊎◌,
}
use trade_sentry.Review.{CaseRecord, Principal, get_case, has_role}
use trade_sentry.Intake.{StoredDocument}
use trade_sentry.Intake.Upload.{Checked, valid, invalid, MimeType, validate_upload}
use trade_sentry.Api.{
  ApiHost, Request, Stores, ok, admin, case_or_404, audit, ScanStatus, clean, malicious,
  unavailable, is_sensitive,
}
use trade_sentry.Api.Documents.{
  Upload, UploadResponse, read, put_document, get_by_hash, document_for, upload_response,
  store_upload, upload_document,
}

-- What is put is found, where nothing was.
find-put_document :
    (p : StoredDocument → Bool) (d : StoredDocument) (ds : List StoredDocument)
    → find p ds ≡ none
    → p d ≡ true
    → find p (put_document d ds) ≡ some d
find-put_document p d [] e f = rw f refl
find-put_document p d (x ∷ xs) e f = elim (Bool-cases (p x)) [
  | inl g ↦ absurd (ground (arith, e, g))
  | inr g ↦ elim (Bool-cases (x.id == d.id)) [
    | inl i ↦ rw (i, f) refl
    | inr i ↦ rw (i, g) (find-put_document p d xs (rw g at e) f)
  ]
]

module _ (h : ApiHost) where
  abbrev bytes_of : Upload → List ℕ
  bytes_of file = read (suc h.max_upload_bytes) file.bytes

  -- The case is the IBU's own, the role is right, and the file has a type and passes the screening.
  record IsAdmitted (p : Principal) (case_id : String) (file : Upload) (s : Stores) : Type 0 where
    the_case : CaseRecord
    mime_type : MimeType
    is_there : get_case case_id s.cases ≡ some the_case
    is_own : (the_case.ibu_id == p.ibu_id) ≡ true
    is_admin : has_role p (admin ∷ []) ≡ true
    is_valid : validate_upload h.upload_host (bytes_of file) h.max_upload_bytes ≡ valid mime_type
    is_clean : h.scan (bytes_of file) ≡ clean

  upload_admitted :
      (r : Request) (case_id : String) (file : Upload) (s : Stores)
      (a : IsAdmitted r.principal case_id file s)
      → upload_document h r case_id file s
        ≡ store_upload h r
            (document_for h r case_id file a.mime_type (bytes_of file))
            (bytes_of file)
            (get_by_hash case_id (h.sha256 (bytes_of file)) s.documents)
            s
  unfolding upload_document case_or_404
  upload_admitted r case_id file s a =
      rw (a.is_there, a.is_own, a.is_admin, a.is_valid, a.is_clean) refl

  checked_cases :
      (c : Checked MimeType)
      → ((m : MimeType) × (c ≡ valid m))
        ⊎ ((detail : String) × (status : ℕ) × (c ≡ invalid detail status))
  checked_cases (valid m) = inl (m, refl)
  checked_cases (invalid detail status) = inr (detail, status, refl)

  scan_cases : (c : ScanStatus) → (c ≡ clean) ⊎ ((c ≡ malicious) ⊎ (c ≡ unavailable))
  scan_cases clean = inl refl
  scan_cases malicious = inr (inl refl)
  scan_cases unavailable = inr (inr refl)

  -- An upload that is answered with a document was admitted.
  admitted :
      (r : Request) (case_id : String) (file : Upload) (s : Stores) (u : UploadResponse)
      → (upload_document h r case_id file s).0 ≡ ok u
      → IsAdmitted r.principal case_id file s
  unfolding upload_document case_or_404
  admitted r case_id file s u e = elim (Option-cases (get_case case_id s.cases)) [
    | inl n ↦ absurd (let x = rw n at e in cc)
    | inr (k, f) ↦ elim (Bool-cases (k.ibu_id == r.principal.ibu_id)) [
      | inr g ↦ absurd (let x = rw (f, g) at e in cc)
      | inl g ↦ elim (Bool-cases (has_role r.principal (admin ∷ []))) [
        | inr a ↦ absurd (let x = rw (f, g, a) at e in cc)
        | inl a ↦
            elim (checked_cases
              (validate_upload h.upload_host (bytes_of file) h.max_upload_bytes)) [
                | inr (detail, status, v) ↦ absurd (let x = rw (f, g, a, v) at e in cc)
                | inl (m, v) ↦ elim (scan_cases (h.scan (bytes_of file))) [
                  | inr (inl c) ↦ absurd (let x = rw (f, g, a, v, c) at e in cc)
                  | inr (inr c) ↦ absurd (let x = rw (f, g, a, v, c) at e in cc)
                  | inl c ↦ record {
                    the_case = k;
                    mime_type = m;
                    is_there = f;
                    is_own = g;
                    is_admin = a;
                    is_valid = v;
                    is_clean = c;
                  }
                ]
              ]
      ]
    ]
  ]

  -- After an upload, the document is found by its hash, and the cases are as they were.
  record IsKept (case_id content_hash : String) (u : UploadResponse) (s t : Stores) : Type 0 where
    document : StoredDocument
    is_found : get_by_hash case_id content_hash t.documents ≡ some document
    is_answered : u ≡ upload_response document.id
    keeps_cases : t.cases ≡ s.cases

  module _ (r : Request) (d : StoredDocument) (bytes : List ℕ) (s : Stores)
      (u : UploadResponse) where
    stored_existing :
        (x : StoredDocument)
        → get_by_hash d.case_id d.content_hash s.documents ≡ some x
        → (store_upload h r d bytes (some x) s).0 ≡ ok u
        → IsKept d.case_id d.content_hash u s (store_upload h r d bytes (some x) s).1
    stored_existing x f e = record {
      document = x;
      is_found = f;
      is_answered = cc;
      keeps_cases = refl;
    }

    is_same_key : ((d.case_id == d.case_id) && (d.content_hash == d.content_hash)) ≡ true
    is_same_key =
        rw ((string_eq.beq_iff d.case_id d.case_id).1 refl)
          ((string_eq.beq_iff d.content_hash d.content_hash).1 refl)

    stored_new :
        get_by_hash d.case_id d.content_hash s.documents ≡ none
        → (store_upload h r d bytes none s).0 ≡ ok u
        → IsKept d.case_id d.content_hash u s (store_upload h r d bytes none s).1
    unfolding audit
    stored_new f e = elim (Bool-cases (is_sensitive h ("document://" + d.id))) [
      | inl g ↦ absurd (let x = rw g at e in cc)
      | inr g ↦ rw g (record {
        document = d;
        is_found =
            find-put_document (λ x. (x.case_id == d.case_id) && (x.content_hash == d.content_hash))
              d s.documents f is_same_key;
        is_answered = let x = rw g at e in cc;
        keeps_cases = refl;
      })
    ]

    stored_upload :
        (o : Option StoredDocument)
        → get_by_hash d.case_id d.content_hash s.documents ≡ o
        → (store_upload h r d bytes o s).0 ≡ ok u
        → IsKept d.case_id d.content_hash u s (store_upload h r d bytes o s).1
    stored_upload none f e = stored_new f e
    stored_upload (some x) f e = stored_existing x f e

  module _ (r r' : Request) (case_id : String) (file file' : Upload) (s : Stores)
      (u : UploadResponse) (same_sender : r'.principal ≡ r.principal)
      (same_bytes : file'.bytes ≡ file.bytes) where
    abbrev after : Stores
    after = (upload_document h r case_id file s).1

    kept :
        (upload_document h r case_id file s).0 ≡ ok u
        → IsKept case_id (h.sha256 (bytes_of file)) u s after
    kept e =
        let a = admitted r case_id file s u e in
        let d = document_for h r case_id file a.mime_type (bytes_of file) in
        let q = upload_admitted r case_id file s a in
        subst (λ t. IsKept case_id (h.sha256 (bytes_of file)) u s t.1) (sym q)
          (stored_upload r d (bytes_of file) s u
            (get_by_hash case_id (h.sha256 (bytes_of file)) s.documents) refl
            (sym (ap (λ t. t.0) q) ∙ e))

    IsAdmitted-again :
        (t : Stores)
        → t.cases ≡ s.cases
        → IsAdmitted r.principal case_id file s
        → IsAdmitted r'.principal case_id file' t
    IsAdmitted-again t c a = record {
      the_case = a.the_case;
      mime_type = a.mime_type;
      is_there = rw c a.is_there;
      is_own = rw same_sender a.is_own;
      is_admin = rw same_sender a.is_admin;
      is_valid = rw same_bytes a.is_valid;
      is_clean = rw same_bytes a.is_clean;
    }

    -- Once an upload is answered with a document, the same bytes sent again to the case by the same
    -- sender, under any name and at any time, are answered in the same way, and nothing is stored,
    -- recorded or handed to the processing.
    pub upload_document-again :
        (upload_document h r case_id file s).0 ≡ ok u
        → upload_document h r' case_id file' after ≡ (ok u, after)
    upload_document-again e =
        let k = kept e in
        let b = IsAdmitted-again after k.keeps_cases (admitted r case_id file s u e) in
        upload_admitted r' case_id file' after b ∙ rw (same_bytes, k.is_found, k.is_answered) refl
