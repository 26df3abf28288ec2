-- ===== src/Prototype/Signature.antt =====
-- rules/ucp600.py: `check_ebl_digital_signature`.
use Prim.Native.String.{◌++◌ as ◌+◌}
use trade_sentry.Prelude.{
  String, Bool, true, false, Option, none, some, List, [], ◌∷◌, ◌++◌, ltb, if◌then◌else◌,
}
use trade_sentry.Contracts.Fields.{Date}
use trade_sentry.Prototype.{material, text, flag, Finding, PrototypeHost, found, when}

-- A moment, with its day and its text.
pub record Timestamp : Type 0 where
  pub day : Date
  pub shown : String

-- `value is False`
abbrev pub is_false : Option Bool → Bool
is_false none = false
is_false (some true) = false
is_false (some false) = true

module _ (h : PrototypeHost) where
  open h use {show_date}

  abbrev pub timestamp_findings : Option Timestamp → Option Date → List Finding
  timestamp_findings none on_board = []
  timestamp_findings (some t) none = []
  timestamp_findings (some t) (some on_board) = when (ltb t.day on_board) (
      found "EBL-SIG-004-TIMESTAMP-ANOMALY" "India Bills of Lading Act 2025 — Temporal Integrity"
        "signature_timestamp" ("Signature on or after on-board date " + show_date on_board)
        ("Signed " + (show_date t.day + " — before on-board date")) material
        (("signature_timestamp", text t.shown)
          ∷ ("on_board_date", text (show_date on_board))
          ∷ ("note", text "Document signed before goods were loaded — impossible")
          ∷ []))

  unfoldable pub check_ebl_digital_signature :
      (is_ebl : Bool)
      (has_valid_pki_signature ca_is_recognized document_integrity_valid : Option Bool)
      (signature_timestamp : Option Timestamp) (bl_on_board_date : Option Date)
      → List Finding
  check_ebl_digital_signature is_ebl valid recognized integrity timestamp on_board =
      if is_ebl
      then (if is_false valid
          then found "EBL-SIG-001-NO-VALID-SIG" "India Bills of Lading Act 2025 / UNCITRAL MLETR"
              "digital_signature" "Valid PKI digital signature from recognized CA"
              "No valid digital signature found" material
              (("is_ebl", flag true) ∷ ("has_valid_pki", flag false) ∷ [])
            ∷ []
          else when (is_false recognized) (
              found "EBL-SIG-002-UNRECOGNIZED-CA" "India Bills of Lading Act 2025 / CCA India"
                "digital_signature" "Certificate issued by CCA India recognized CA"
                "Certificate authority not in recognized CA list" material
                (("ca_recognized", flag false) ∷ []))
            ++ (when (is_false integrity) (
                  found "EBL-SIG-003-TAMPERED" "India Bills of Lading Act 2025 — Document Integrity"
                    "document_integrity" "Document hash matches signed hash (not tampered)"
                    "Document hash MISMATCH — document modified after signing" material
                    (("integrity_check", text "FAILED")
                      ∷ (
                        "note",
                        text "Document content was modified after PKI signature was applied",
                      )
                      ∷ []))
                ++ timestamp_findings timestamp on_board))
      else []
