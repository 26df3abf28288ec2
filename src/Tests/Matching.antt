-- ===== src/Tests/Matching.antt =====
-- The matching across branches at concrete registrations.
use mathlib.Core.Bool.{false≢true}
use trade_sentry.Prelude.{◌≡◌, ◌≢◌, refl, true, [], ◌∷◌, any, string_eq}
use trade_sentry.CrossIbu.Matcher.{is_exact}
use trade_sentry.CrossIbu.Match.{find_best_match}
use trade_sentry.CrossIbu.Match.Best.{is_exact_level, find_best_match-exact}
use trade_sentry.CrossIbu.Registry.{register, find_candidates}
use trade_sentry.CrossIbu.Registry.Duplicates.{register_all, duplicate_reported}
use trade_sentry.Tests.Data.{plain_match_host, signal_of, other_shipment}

hk≢sg : (signal_of "HK" "C-2").ibu_id ≢ (signal_of "SG" "C-1").ibu_id
hk≢sg e = false≢true ((string_eq.beq_iff "HK" "SG").1 e)

find_best_match-exact_example :
    is_exact_level (find_best_match plain_match_host (signal_of "SG" "C-1") (other_shipment ∷ []) 5)
    ≡ any (λ d. is_exact (signal_of "SG" "C-1") d.signal) (other_shipment ∷ [])
find_best_match-exact_example =
    find_best_match-exact plain_match_host (signal_of "SG" "C-1") 5 (other_shipment ∷ [])

duplicate_reported_example :
    is_exact_level (
      find_best_match plain_match_host
        (signal_of "SG" "C-1")
        (find_candidates
          (register_all plain_match_host
            (register plain_match_host [] (signal_of "HK" "C-2") 0).0
            ((signal_of "AE" "C-3", 1) ∷ []))
          (signal_of "SG" "C-1"))
        5)
    ≡ true
duplicate_reported_example =
    duplicate_reported plain_match_host [] (signal_of "HK" "C-2") 0 ((signal_of "AE" "C-3", 1) ∷ [])
      (signal_of "SG" "C-1") 5 hk≢sg refl
