-- ===== src/CrossIbu/Match/Best.antt =====
-- Which match `find_best_match` returns.
use trade_sentry.Prelude.{
  ℕ, String, ◌≡◌, refl, ◌∙◌, Bool, true, false, ◌||◌, List, [], ◌∷◌, map, any, arith, if◌then◌else◌,
}
use trade_sentry.CrossIbu.Model.{
  exact, nothing, RegistrySignal, RegistryRegistration, CrossIbuMatch, MatchHost,
}
use trade_sentry.CrossIbu.Matcher.{is_exact, is_false_positive}
use trade_sentry.CrossIbu.Match.{match_candidate, key_lt, max_match, find_best_match}

abbrev pub is_exact_level : CrossIbuMatch → Bool
is_exact_level x = elim x.match_level [ exact ↦ true | _ ↦ false ]

pick-exact :
    (ibu : String) (b x : CrossIbuMatch)
    → is_exact_level (if key_lt ibu b x then x else b) ≡ (is_exact_level b || is_exact_level x)
pick-exact ibu b x = ground arith

max_match-exact :
    (ibu : String) (b : CrossIbuMatch) (xs : List CrossIbuMatch)
    → is_exact_level (max_match ibu b xs) ≡ (is_exact_level b || any is_exact_level xs)
unfolding max_match
max_match-exact ibu b [] = ground arith
max_match-exact ibu b (x ∷ xs) =
    ground (arith, max_match-exact ibu (if key_lt ibu b x then x else b) xs, pick-exact ibu b x)

module _ (m : MatchHost) (q : RegistrySignal) (now : ℕ) where
  candidate-exact :
      (c : RegistryRegistration) → is_exact_level (match_candidate m q c now) ≡ is_exact q c.signal
  unfolding match_candidate
  candidate-exact c = ground arith

  candidates-exact :
      (cs : List RegistryRegistration)
      → any is_exact_level (map (λ d. match_candidate m q d now) cs)
        ≡ any (λ d. is_exact q d.signal) cs
  candidates-exact [] = refl
  candidates-exact (c ∷ cs) = ground (arith, candidate-exact c, candidates-exact cs)

  -- The best match is EXACT exactly when some candidate has the query's fingerprint, or its B/L
  -- number where that is not empty. No other candidate hides it.
  pub find_best_match-exact :
      (cs : List RegistryRegistration)
      → is_exact_level (find_best_match m q cs now) ≡ any (λ d. is_exact q d.signal) cs
  unfolding find_best_match
  find_best_match-exact [] = refl
  find_best_match-exact (c ∷ cs) =
      max_match-exact q.ibu_id (match_candidate m q c now) (map (λ d. match_candidate m q d now) cs)
      ∙ ground (arith, candidate-exact c, candidates-exact cs)

  -- A candidate of the same exporter whose B/L number, vessel and shipment date all differ raises
  -- no alert, however similar its other fields are, unless it is an exact match.
  pub repeat_customer_suppressed :
      (c : RegistryRegistration)
      → is_exact q c.signal ≡ false
      → is_false_positive q c.signal ≡ true
      → (match_candidate m q c now).match_level ≡ nothing
  unfolding match_candidate
  repeat_customer_suppressed c ne fp = rw (ne, fp) refl
