-- ===== src/Fraud/Sanctions.antt =====
-- fraud_tbml/sanctions_screening.py
pub mod Listed
use Prim.Native.String.{◌++◌ as ◌+◌}
use trade_sentry.Prelude.{
  ℕ, ◌*◌, String, Bool, true, false, ◌&&◌, Option, none, some, List, [], ◌∷◌, map, leb, ltb,
  string_eq, ◌==◌, if◌then◌else◌,
}
use trade_sentry.Prelude.Text.{is_text}
use trade_sentry.Prelude.Decimal.{Decimal, decimal}
use trade_sentry.Contracts.Fields.{Date}
use trade_sentry.Fraud.{
  SanctionsStatus, no_match, possible_match, confirmed_source_match, data_unavailable,
  EntityScreenResult, SanctionsScreeningResult,
}
use trade_sentry.Fraud.Common.{FraudHost, normalize_name}
use trade_sentry.Investigation.World.{Outcome, returned, raised, ◌>>=◌}

abbrev pub sanctions_caveats : List String
sanctions_caveats =
    "Fuzzy name similarity alone is only a possible match"
    ∷ "A human officer makes the final determination"
    ∷ "Screening results are investigation signals — not legal findings or proof of fraud" ∷ []

pub record SanctionsRecord : Type 0 where
  pub name : String
  pub listed_in : String
  pub source_identifier : Option String

-- The list, with the threshold as the fraction `threshold_num / threshold_den`.
pub record SanctionsFixture : Type 0 where
  pub records : List SanctionsRecord
  pub data_source : String
  pub version : String
  pub list_date : Date
  pub threshold_num : ℕ
  pub threshold_den : ℕ

-- the day number of `date(1970, 1, 1)`
abbrev pub epoch : Date
epoch = 719_163

-- the truth value of a source identifier
abbrev pub has_source : Option String → Bool
has_source none = false
has_source (some s) = is_text s

abbrev pub no_match_rationale : String
no_match_rationale =
    "No material name similarity in the bundled fixture; human review remains authoritative."

abbrev pub possible_rationale : String
possible_rationale =
    "Fuzzy name similarity only; no corroborating input identifier was supplied. This cannot be treated as a confirmed match. Human review is required."

abbrev pub source_text : Option String → String
source_text none = "None"
source_text (some s) = s

abbrev pub confirmed_rationale : Option String → String
confirmed_rationale source =
    "Exact normalized name matched a dated source record carrying source identifier "
    + (source_text source + ". Human officer determination is still required.")

-- `max(records, key=...)`: the first with the largest key
unfoldable pub max_by {ℓ} : {A : Type ℓ} → (A → ℕ) → A → List A → A
max_by key best [] = best
max_by key best (x ∷ xs) =
    let later = max_by key x xs in
    let same = max_by key best xs in if ltb (key best) (key x) then later else same

module _ (h : FraudHost) where
  abbrev pub score : (normalized : String) → SanctionsRecord → ℕ
  score normalized r = h.ratio normalized (normalize_name h r.name)

  -- whether the record's name, in its normal form, is the one that is screened
  abbrev pub is_same_name : (normalized : String) → SanctionsRecord → Bool
  is_same_name normalized r = normalized == normalize_name h r.name

  unfoldable pub match_status :
      SanctionsFixture → (normalized : String) → SanctionsRecord → SanctionsStatus
  match_status f normalized r =
      if is_same_name normalized r && has_source r.source_identifier
      then confirmed_source_match
      else if leb (f.threshold_num * h.full) (score normalized r * f.threshold_den)
      then possible_match
      else no_match

  abbrev pub rationale_of : SanctionsStatus → SanctionsRecord → String
  rationale_of confirmed_source_match r = confirmed_rationale r.source_identifier
  rationale_of possible_match r = possible_rationale
  rationale_of _ r = no_match_rationale

  abbrev pub matched_list_of : SanctionsStatus → SanctionsRecord → Option String
  matched_list_of no_match r = none
  matched_list_of _ r = some r.listed_in

  abbrev pub screened :
      SanctionsFixture → (input_name normalized : String) → SanctionsRecord → EntityScreenResult
  screened f input_name normalized best =
      let status = match_status f normalized best in
      record {
        provenance = record {
          data_source = f.data_source;
          source_version = f.version;
          retrieved_at = h.retrieved_now;
          caveats = sanctions_caveats;
        };
        input_name = input_name;
        normalized_name = normalized;
        match_status = status;
        matched_list = matched_list_of status best;
        match_score = h.rounded (score normalized best) h.full;
        match_rationale = rationale_of status best;
        list_date = f.list_date;
      }

  -- with the records of the list; `max` of none of them raises
  abbrev pub screen_among :
      SanctionsFixture → (input_name : String) → List SanctionsRecord → Outcome EntityScreenResult
  screen_among f input_name [] = raised "ValueError"
  screen_among f input_name (r ∷ rs) =
      let normalized = normalize_name h input_name in
      returned (screened f input_name normalized (max_by (score normalized) r rs))

  -- `_screen_one`
  unfoldable pub screen_one : SanctionsFixture → (input_name : String) → Outcome EntityScreenResult
  screen_one f input_name = screen_among f input_name f.records

  -- `[self._screen_one(name) for name in entity_names]`
  unfoldable pub screen_each : SanctionsFixture → List String → Outcome (List EntityScreenResult)
  screen_each f [] = returned []
  screen_each f (n ∷ ns) = do r ← screen_one f n; rs ← screen_each f ns; returned (r ∷ rs)

  -- `MockSanctionsScreeningProvider.screen`
  unfoldable pub screen : SanctionsFixture → List String → Outcome SanctionsScreeningResult
  screen f names = do
    rs ← screen_each f names
    returned (record { screened_entities = rs; human_determination_required = true })

  abbrev pub unavailable_screening : (reason name : String) → EntityScreenResult
  unavailable_screening reason name = record {
    provenance = record {
      data_source = "Provider unavailable";
      source_version = "unavailable";
      retrieved_at = h.retrieved_now;
      caveats = sanctions_caveats;
    };
    input_name = name;
    normalized_name = normalize_name h name;
    match_status = data_unavailable;
    matched_list = none;
    match_score = decimal 0 0;
    match_rationale = reason + ". Human officer determination is required.";
    list_date = epoch;
  }

  unfoldable pub unavailable_sanctions_result :
      List String → (reason : String) → SanctionsScreeningResult
  unavailable_sanctions_result names reason = record {
    screened_entities = map (unavailable_screening reason) names;
    human_determination_required = true;
  }
