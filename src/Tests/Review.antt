-- ===== src/Tests/Review.antt =====
-- The review of a concrete case.
use trade_sentry.Prelude.{◌≡◌, refl, ◌⊎◌, [], ◌∷◌}
use trade_sentry.Review.{
  ReviewHost, Desk, Submission, CaseRecord, ReviewRequest, Principal, created, http_error, approve,
  hold, decision_of, submit_review, submit_all,
}
use trade_sentry.Review.Authority.{IsNew, IsDecided, submit_review_cases}
use trade_sentry.Review.Replay.{submit_review_replay, submit_review-conflict}
use trade_sentry.Review.Status.{IsInAccord, IsInAccord-submit_all}

-- a text is its own digest
abbrev digest : ReviewHost
digest = record { sha256 = λ s. s; lower = λ s. s }

abbrev one_case : CaseRecord
one_case = record { id = "C-1"; ibu_id = "SG"; status = "CREATED"; created_at = 0 }

abbrev open_desk : Desk
open_desk = record { cases = one_case ∷ []; decisions = []; events = [] }

abbrev sg_officer : Principal
sg_officer = record { officer_id = "O-1"; role = "OFFICER"; ibu_id = "SG" }

abbrev approval : ReviewRequest
approval = record { decision = approve; comment = "all documents are in order" }

abbrev refusal : ReviewRequest
refusal = record { decision = hold; comment = "the shipment date is unclear" }

abbrev submission : Submission
submission = record {
  case_id = "C-1";
  payload = approval;
  idempotency_key = "0123456789abcdef";
  principal = sg_officer;
  uuid = "u1";
  now = 1;
}

abbrev later_one : Submission
later_one = record submission {
  payload = refusal;
  idempotency_key = "fedcba9876543210";
  uuid = "u2";
  now = 2;
}

submit_review_cases_example :
    ((submit_review digest submission open_desk).1 ≡ open_desk)
    ⊎ (IsNew digest submission open_desk
        × ((submit_review digest submission open_desk).0 ≡ created (decision_of digest submission))
        × IsDecided digest submission open_desk (submit_review digest submission open_desk).1)
submit_review_cases_example = submit_review_cases digest submission open_desk

submit_review_replay_example :
    ((submit_review digest submission open_desk).0 ≡ created (decision_of digest submission))
    × (submit_review digest
          (record submission { uuid = "u3"; now = 3 })
          (submit_all digest (later_one ∷ []) (submit_review digest submission open_desk).1)
        ≡ (
          created (decision_of digest submission),
          submit_all digest (later_one ∷ []) (submit_review digest submission open_desk).1,
        ))
submit_review_replay_example =
    submit_review_replay digest submission open_desk "u3" 3 (later_one ∷ []) (refl, (refl, refl))

submit_review-conflict_example :
    submit_review digest
      (record submission { payload = refusal; uuid = "u3"; now = 3 })
      (submit_all digest (later_one ∷ []) (submit_review digest submission open_desk).1)
    ≡ (
      http_error 409 "Idempotency key was already used",
      submit_all digest (later_one ∷ []) (submit_review digest submission open_desk).1,
    )
submit_review-conflict_example =
    submit_review-conflict digest submission open_desk refusal "u3" 3 (later_one ∷ [])
      (refl, (refl, refl)) refl

IsInAccord-submit_all_example :
    IsInAccord "C-1" (submit_all digest (submission ∷ later_one ∷ []) open_desk)
IsInAccord-submit_all_example =
    IsInAccord-submit_all digest "C-1" (submission ∷ later_one ∷ []) open_desk tt
