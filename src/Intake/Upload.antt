-- ===== src/Intake/Upload.antt =====
-- apps/api/tradesentry_api/documents.py: the checks of an upload, its name and its type.
pub mod Names
use Prim.Native.Char.{Char, char, code}
use trade_sentry.Prelude.{
  ℕ, zero, suc, String, Bool, true, false, ◌&&◌, ◌||◌, not, Option, none, some, List, [], ◌∷◌, any,
  length, ltb, leb, nat_beq, string_eq, ◌==◌, if◌then◌else◌,
}
use trade_sentry.Prelude.Text.{is_text}
use trade_sentry.Contracts.Documents.{
  DocumentType, letter_of_credit, commercial_invoice, bill_of_lading, packing_list,
  certificate_of_origin, insurance_certificate, inspection_certificate, unknown,
}
use trade_sentry.Dna.Text.{is_alnum}
use trade_sentry.Fraud.Common.{is_within}
use trade_sentry.Investigation.Calls.{first_chars}

-- `DocumentValidationError`, or a value
pub data Checked {ℓ} (A : Type ℓ) : Type ℓ where
  valid : A → Checked A
  invalid : (detail : String) → (status_code : ℕ) → Checked A

-- The three types of file that `detect_mime` tells.
pub data MimeType : Type 0 where
  pdf tiff jpeg : MimeType

abbrev pub mime_value : MimeType → String
mime_value pdf = "application/pdf"
mime_value tiff = "image/tiff"
mime_value jpeg = "image/jpeg"

-- What the checks take from pypdf and the library: the number of pages that a strict reader finds,
-- if it can read the bytes, the last part of a path, and `lower`.
pub record UploadHost : Type 0 where
  pub pdf_pages : List ℕ → Option ℕ
  pub path_name : String → String
  pub lower : String → String

-- `bytes.startswith(prefix)`
abbrev pub has_bytes : (prefix bytes : List ℕ) → Bool
has_bytes [] ds = true
has_bytes (p ∷ ps) [] = false
has_bytes (p ∷ ps) (d ∷ ds) = nat_beq p d && has_bytes ps ds

unfoldable pub detect_mime : List ℕ → Checked MimeType
detect_mime bytes =
    if has_bytes (37 ∷ 80 ∷ 68 ∷ 70 ∷ 45 ∷ []) bytes
    then valid pdf
    else if has_bytes (73 ∷ 73 ∷ 42 ∷ 0 ∷ []) bytes || has_bytes (77 ∷ 77 ∷ 0 ∷ 42 ∷ []) bytes
    then valid tiff
    else if has_bytes (255 ∷ 216 ∷ 255 ∷ []) bytes
    then valid jpeg
    else invalid "Only PDF, TIFF, and JPEG documents are supported" 415

-- the reader's answer on a PDF
abbrev pub with_pages : Option ℕ → Checked MimeType
with_pages none = invalid "PDF structure is invalid" 415
with_pages (some zero) = invalid "PDF structure is invalid" 415
with_pages (some (suc n)) = valid pdf

abbrev pub fallback_name : MimeType → String
fallback_name pdf = "document.pdf"
fallback_name tiff = "document.tiff"
fallback_name jpeg = "document.jpg"

-- the character in `[A-Za-z0-9._-]`
abbrev pub is_safe_char : ℕ → Bool
is_safe_char c = is_alnum c || (nat_beq c b'.' || (nat_beq c b'_' || nat_beq c b'-'))

abbrev pub is_trimmed : ℕ → Bool
is_trimmed c = nat_beq c b'.' || nat_beq c b'_'

-- `text.replace(old, new)` for two characters
abbrev pub replace_char : (old new : Char) → String → String
replace_char old new String.[] = String.[]
replace_char old new (String.◌∷◌ c s) =
    let rest = replace_char old new s in
    if nat_beq (code c) (code old) then String.◌∷◌ new rest else String.◌∷◌ c rest

abbrev pub underscore : Char
underscore = char b'_' tt

-- `re.sub(r"[^A-Za-z0-9._-]", "_", text)`
unfoldable pub safe_text : String → String
safe_text String.[] = String.[]
safe_text (String.◌∷◌ c s) =
    let rest = safe_text s in
    if is_safe_char (code c) then String.◌∷◌ c rest else String.◌∷◌ underscore rest

-- `text.strip("._")`
abbrev pub strip_front : String → String
strip_front String.[] = String.[]
strip_front (String.◌∷◌ c s) =
    let rest = strip_front s in if is_trimmed (code c) then rest else String.◌∷◌ c s

abbrev pub strip_back : String → String
strip_back String.[] = String.[]
strip_back (String.◌∷◌ c s) =
    let rest = strip_back s in
    if is_trimmed (code c) && not (is_text rest) then String.[] else String.◌∷◌ c rest

abbrev pub strip_marks : String → String
strip_marks s = strip_back (strip_front s)

abbrev pub max_filename_length : ℕ
max_filename_length = 180

abbrev pub given_name : Option String → String → String
given_name none fallback = fallback
given_name (some s) fallback = if is_text s then s else fallback

abbrev pub filename_hints : List (DocumentType × List String)
filename_hints =
    (letter_of_credit, "letter_of_credit" ∷ "letter-credit" ∷ "lc_" ∷ "lc." ∷ [])
    ∷ (commercial_invoice, "commercial_invoice" ∷ "invoice" ∷ [])
    ∷ (bill_of_lading, "bill_of_lading" ∷ "bill-lading" ∷ "b_l" ∷ "bl_" ∷ [])
    ∷ (packing_list, "packing_list" ∷ "packing" ∷ [])
    ∷ (certificate_of_origin, "certificate_of_origin" ∷ "origin" ∷ [])
    ∷ (insurance_certificate, "insurance_certificate" ∷ "insurance" ∷ [])
    ∷ (inspection_certificate, "inspection_certificate" ∷ "inspection" ∷ [])
    ∷ []

abbrev pub keyword_hints : List (DocumentType × List String)
keyword_hints =
    (letter_of_credit, "documentary credit" ∷ "letter of credit" ∷ "credit number" ∷ [])
    ∷ (commercial_invoice, "commercial invoice" ∷ "invoice number" ∷ "unit price" ∷ [])
    ∷ (bill_of_lading, "bill of lading" ∷ "vessel" ∷ "shipper" ∷ [])
    ∷ (packing_list, "packing list" ∷ "gross weight" ∷ "net weight" ∷ [])
    ∷ (certificate_of_origin, "certificate of origin" ∷ "country of origin" ∷ [])
    ∷ (insurance_certificate, "insurance certificate" ∷ "insured amount" ∷ [])
    ∷ (inspection_certificate, "inspection certificate" ∷ "inspection agency" ∷ [])
    ∷ []

-- the type of the first line with a hint that the text contains
unfoldable pub hinted : List (DocumentType × List String) → String → Option DocumentType
hinted [] text = none
hinted ((t, hints) ∷ rest) text =
    let later = hinted rest text in if any (λ h. is_within h text) hints then some t else later

abbrev pub type_or : Option DocumentType → DocumentType → DocumentType
type_or none d = d
type_or (some t) d = t

module _ (h : UploadHost) where
  abbrev pub after_mime : List ℕ → Checked MimeType → Checked MimeType
  after_mime bytes (valid pdf) = with_pages (h.pdf_pages bytes)
  after_mime bytes checked = checked

  unfoldable pub validate_upload : List ℕ → (maximum_bytes : ℕ) → Checked MimeType
  validate_upload bytes maximum_bytes =
      if ltb maximum_bytes (length bytes)
      then invalid "Document exceeds the configured 50 MB limit" 413
      else if leb (length bytes) 0
      then invalid "Document is empty" 415
      else after_mime bytes (detect_mime bytes)

  unfoldable pub sanitize_filename : Option String → MimeType → String
  sanitize_filename filename mime_type =
      let fallback = fallback_name mime_type in
      let leaf =
        h.path_name (replace_char (char b'\\' tt) (char b'/' tt) (given_name filename fallback)) in
      let safe = strip_marks (safe_text leaf) in
      first_chars max_filename_length (if is_text safe then safe else fallback)

  unfoldable pub classify_document : (filename first_page_text : String) → DocumentType
  classify_document filename first_page_text =
      type_or (hinted filename_hints (replace_char (char b' ' tt) underscore (h.lower filename)))
        (type_or (hinted keyword_hints (h.lower first_page_text)) unknown)
