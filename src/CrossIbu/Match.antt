-- ===== src/CrossIbu/Match.antt =====
-- cross_ibu/matcher.py: `_match` and `find_best_match`.
pub mod Best
use Prim.Native.String.{◌++◌ as ◌+◌}
use trade_sentry.Prelude.{
  ℕ, String, Bool, true, false, none, some, List, [], ◌∷◌, map, if◌then◌else◌, ltb, option_eq,
  string_eq,
}
use trade_sentry.CrossIbu.Model.{
  MatchLevel, exact, near, contextual, nothing, RegistrySignal, RegistryRegistration, CrossIbuMatch,
  MatchHost,
}
use trade_sentry.CrossIbu.Matcher.{
  Score, round_six, reaches, weighted_similarity, is_exact, is_false_positive, is_contextual,
  likely_duplicate_threshold, possible_match_threshold,
}

-- The branch that `_match` takes.
pub data Verdict : Type 0 where
  exact_match repeat_customer likely_duplicate possible_match same_context insufficient : Verdict

abbrev pub level_of : Verdict → MatchLevel
level_of exact_match = exact
level_of repeat_customer = nothing
level_of likely_duplicate = near
level_of possible_match = near
level_of same_context = contextual
level_of insufficient = nothing

abbrev pub explanation_of : Verdict → String
explanation_of exact_match =
    "Exact normalized fingerprint or B/L match. Potential duplicate-financing investigation signal; not proof of duplicate financing or fraud."
explanation_of repeat_customer =
    "Same exporter but different B/L, vessel, and shipment date. Suppressed as a legitimate repeat-customer pattern; no duplicate-financing alert generated."
explanation_of likely_duplicate =
    "High-similarity shipment pattern; review as a likely-duplicate signal."
explanation_of possible_match = "Similar shipment pattern; review as a possible-match signal."
explanation_of same_context =
    "Same shipment context with a different B/L; review documentation variants."
explanation_of insufficient =
    "Insufficient shipment overlap; no duplicate-financing alert generated."

unfoldable pub verdict : RegistrySignal → RegistrySignal → Score → Verdict
verdict q c score =
    if is_exact q c
    then exact_match
    else if is_false_positive q c
    then repeat_customer
    else if reaches likely_duplicate_threshold score
    then likely_duplicate
    else if reaches possible_match_threshold score
    then possible_match
    else if is_contextual q c
    then same_context
    else insufficient

-- An exact match scores 1.0 whatever the fields say.
abbrev pub final_score : Verdict → Score → ℕ
final_score exact_match score = 1_000_000
final_score _ score = round_six score

module _ (m : MatchHost) where
  open m use {match_digest}

  unfoldable pub match_candidate : RegistrySignal → RegistryRegistration → ℕ → CrossIbuMatch
  unfolding verdict
  match_candidate q c queried_at =
      let (score, matched_fields) = weighted_similarity m q c.signal in
      let v = verdict q c.signal score in
      record {
        match_id = "match-" + match_digest q.case_id c.registration_id queried_at;
        querying_ibu_id = q.ibu_id;
        querying_case_id = q.case_id;
        matched_registration_id = some c.registration_id;
        matched_ibu_id = some c.ibu_id;
        match_level = level_of v;
        similarity_score = final_score v score;
        matched_fields = matched_fields;
        explanation = explanation_of v;
        is_false_positive_candidate = is_false_positive q c.signal;
        evidence_ref = some ("registry://" + c.registration_id);
        queried_at = queried_at;
      }

  unfoldable pub no_match : RegistrySignal → ℕ → CrossIbuMatch
  no_match q queried_at = record {
    match_id = "match-" + match_digest q.case_id "none" queried_at;
    querying_ibu_id = q.ibu_id;
    querying_case_id = q.case_id;
    matched_registration_id = none;
    matched_ibu_id = none;
    match_level = nothing;
    similarity_score = 0;
    matched_fields = [];
    explanation = "No comparable registry signals found; no alert generated.";
    is_false_positive_candidate = false;
    evidence_ref = none;
    queried_at = queried_at;
  }

abbrev pub priority : MatchLevel → ℕ
priority exact = 3
priority near = 2
priority contextual = 1
priority nothing = 0

-- `item.matched_ibu_id != query.ibu_id`, as a number
abbrev pub is_foreign : String → CrossIbuMatch → ℕ
is_foreign ibu_id x = if option_eq.beq x.matched_ibu_id (some ibu_id) then 0 else 1

-- the key of `a` is smaller than that of `b`
abbrev pub key_lt : String → CrossIbuMatch → CrossIbuMatch → Bool
key_lt ibu_id a b =
    if ltb (priority a.match_level) (priority b.match_level)
    then true
    else if ltb (priority b.match_level) (priority a.match_level)
    then false
    else if ltb a.similarity_score b.similarity_score
    then true
    else if ltb b.similarity_score a.similarity_score
    then false
    else ltb (is_foreign ibu_id a) (is_foreign ibu_id b)

-- `max(matches, key=...)`: the first of the largest
unfoldable pub max_match : String → CrossIbuMatch → List CrossIbuMatch → CrossIbuMatch
max_match ibu_id best [] = best
max_match ibu_id best (x ∷ xs) = max_match ibu_id (if key_lt ibu_id best x then x else best) xs

unfoldable pub find_best_match :
    MatchHost → RegistrySignal → List RegistryRegistration → ℕ → CrossIbuMatch
unfolding match_candidate no_match max_match
find_best_match m q [] queried_at = no_match m q queried_at
find_best_match m q (c ∷ cs) queried_at =
    max_match q.ibu_id (match_candidate m q c queried_at)
      (map (λ d. match_candidate m q d queried_at) cs)
