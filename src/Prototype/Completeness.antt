-- ===== src/Prototype/Completeness.antt =====
-- rules/completeness.py
use trade_sentry.Prelude.Int.{ℤ}
use trade_sentry.Prelude.{
  String, not, List, [], ◌∷◌, map, keep, elem, is_empty, string_eq, ◌==◌, if◌then◌else◌,
}

pub data CompletenessStatus : Type 0 where
  complete incomplete pending_lc : CompletenessStatus

pub data PresenceStatus : Type 0 where
  present missing not_required : PresenceStatus

pub record DocumentSpec : Type 0 where
  pub document_type : String
  pub originals_required : ℤ
  pub copies_required : ℤ

pub record CompletenessResult : Type 0 where
  pub status : CompletenessStatus
  pub required : List String
  pub present : List String
  pub missing : List String
  pub not_required : List String
  pub detail : List (String × PresenceStatus)

-- `detail[key] = value`
abbrev pub set_detail :
    String → PresenceStatus → List (String × PresenceStatus) → List (String × PresenceStatus)
set_detail key value [] = (key, value) ∷ []
set_detail key value ((k, v) ∷ rest) =
    let later = set_detail key value rest in if k == key then (k, value) ∷ rest else (k, v) ∷ later

abbrev pub details :
    List String → List String → List (String × PresenceStatus) → List (String × PresenceStatus)
details extracted [] found = found
details extracted (t ∷ ts) found = details extracted ts (
    set_detail t (if elem t extracted then PresenceStatus.present else PresenceStatus.missing)
      found)

unfoldable pub check_completeness : List DocumentSpec → List String → CompletenessResult
check_completeness [] extracted = record {
  status = pending_lc;
  required = [];
  present = [];
  missing = [];
  not_required = [];
  detail = [];
}
check_completeness (s ∷ ss) extracted =
    let required = map (λ x. x.document_type) (s ∷ ss) in
    let lacking = keep (λ t. not (elem t extracted)) required in
    record {
      status = if is_empty lacking then complete else incomplete;
      required = required;
      present = keep (λ t. elem t extracted) required;
      missing = lacking;
      not_required = [];
      detail = details extracted required [];
    }
