-- ===== src/Review/Replay.antt =====
-- apps/api/tradesentry_api/dashboard_api.py: requests that are sent again.
use mathlib.Core.Path.{subst}
use trade_sentry.Prelude.{
  ℕ, String, ◌≡◌, refl, sym, ap, ◌∙◌, true, false, ◌&&◌, Option, none, some, List, [], ◌∷◌, arith,
  Bool-cases, inl, inr, string_eq, ◌==◌,
}
use trade_sentry.Review.{
  ReviewHost, Desk, Submission, OfficerDecision, CaseRecord, ReviewRequest, created, http_error,
  officer, get_case, get_by_idempotency, decision_of, reply_of, is_repeated, record_decision,
  update_case_status, status_after, with_existing, with_case, has_role, view_roles, submit_review,
  submit_all, decision_beq, ReviewDecision, approve, hold, escalate, request_more_evidence,
}
use trade_sentry.Review.Authority.{IsOwn, IsNew, submit_review-step}
use trade_sentry.Review.Store.{
  with_status, same_id, get_case-update, get_case-update_other, find-append, find-snoc,
}

IsOwn-with_status :
    (ibu status : String) (o : Option CaseRecord) → IsOwn ibu o → IsOwn ibu (with_status status o)
unfolding with_status
IsOwn-with_status ibu status none k = k
IsOwn-with_status ibu status (some c) k = k

-- A case stays with its IBU.
IsOwn-update :
    (ibu id other status : String) (cs : List CaseRecord)
    → IsOwn ibu (get_case id cs)
    → IsOwn ibu (get_case id (update_case_status other status cs))
IsOwn-update ibu id other status cs k = elim (Bool-cases (id == other)) [
  | inl e ↦
      let same = (string_eq.beq_iff id other).0 e in
      subst (λ o. IsOwn ibu (get_case id (update_case_status o status cs))) same
        (subst (IsOwn ibu) (sym (get_case-update id status cs))
          (IsOwn-with_status ibu status (get_case id cs) k))
  | inr e ↦ subst (IsOwn ibu) (sym (get_case-update_other id other status cs e)) k
]

pub decision_beq_refl : (d : ReviewDecision) → decision_beq d d ≡ true
decision_beq_refl approve = refl
decision_beq_refl hold = refl
decision_beq_refl escalate = refl
decision_beq_refl request_more_evidence = refl

module _ (h : ReviewHost) where
  open h use {sha256}

  -- the key's decision is in the store, and the officer may still see the case
  abbrev pub IsStored : Submission → OfficerDecision → Desk → Type 0
  IsStored s x d =
      (s.principal.role ≡ officer)
      × (IsOwn s.principal.ibu_id (get_case s.case_id d.cases)
          × (get_by_idempotency s.case_id (sha256 s.idempotency_key) d.decisions ≡ some x))

  IsStored-record :
      (s t : Submission) (x : OfficerDecision) (d : Desk)
      → IsStored s x d
      → IsStored s x (record_decision h t d)
  unfolding record_decision
  IsStored-record s t x d (r, (o, g)) = (
    r,
    (
      IsOwn-update s.principal.ibu_id s.case_id t.case_id (status_after t.payload.decision) d.cases
          o,
      find-append
          (λ i. (i.case_id == s.case_id) && (i.idempotency_key_hash == sha256 s.idempotency_key))
          d.decisions (decision_of h t ∷ []) x g,
    ),
  )

  IsStored-submit :
      (s t : Submission) (x : OfficerDecision) (d : Desk)
      → IsStored s x d
      → IsStored s x (submit_review h t d).1
  IsStored-submit s t x d k = elim (submit_review-step h t d) [
    | inl e ↦ subst (IsStored s x) (sym e) k
    | inr e ↦ subst (IsStored s x) (sym (ap (λ r. r.1) e.1)) (IsStored-record s t x d k)
  ]

  IsStored-all :
      (s : Submission) (ts : List Submission) (x : OfficerDecision) (d : Desk)
      → IsStored s x d
      → IsStored s x (submit_all h ts d)
  unfolding submit_all
  IsStored-all s [] x d k = k
  IsStored-all s (t ∷ ts) x d k =
      IsStored-all s ts x (submit_review h t d).1 (IsStored-submit s t x d k)

  key_matches :
      (s : Submission)
      → (((decision_of h s).case_id == s.case_id)
          && ((decision_of h s).idempotency_key_hash == sha256 s.idempotency_key))
        ≡ true
  key_matches s = rw (same_id s.case_id, same_id (sha256 s.idempotency_key)) refl

  IsStored-new :
      (s : Submission) (d : Desk)
      → IsNew h s d
      → IsStored s (decision_of h s) (record_decision h s d)
  unfolding record_decision
  IsStored-new s d (r, (o, g)) = (
    r,
    (
      IsOwn-update s.principal.ibu_id s.case_id s.case_id (status_after s.payload.decision) d.cases
          o,
      find-snoc
          (λ i. (i.case_id == s.case_id) && (i.idempotency_key_hash == sha256 s.idempotency_key))
          d.decisions (decision_of h s) g (key_matches s),
    ),
  )

  with_case-own :
      (s : Submission) (d : Desk) (o : Option CaseRecord)
      → IsOwn s.principal.ibu_id o
      → with_case h s d o
        ≡ with_existing h s d (get_by_idempotency s.case_id (sha256 s.idempotency_key) d.decisions)
  with_case-own s d none k = absurd k
  with_case-own s d (some c) k = rw ((string_eq.beq_iff c.ibu_id s.principal.ibu_id).1 k) refl

  officer_role :
      (s : Submission) → s.principal.role ≡ officer → has_role s.principal (officer ∷ []) ≡ true
  officer_role s r = ground (arith, string_eq.beq_iff s.principal.role officer)

  view_role : (s : Submission) → s.principal.role ≡ officer → has_role s.principal view_roles ≡ true
  view_role s r = ground (arith, string_eq.beq_iff s.principal.role officer)

  submit-own :
      (s : Submission) (d : Desk)
      → s.principal.role ≡ officer
      → IsOwn s.principal.ibu_id (get_case s.case_id d.cases)
      → submit_review h s d
        ≡ with_existing h s d (get_by_idempotency s.case_id (sha256 s.idempotency_key) d.decisions)
  unfolding submit_review
  submit-own s d r o =
      rw (view_role s r, officer_role s r) (with_case-own s d (get_case s.case_id d.cases) o)

  -- An officer's request on a case of the officer's IBU, with a key that the case has not seen,
  -- creates its decision, and is answered as the audit lets it.
  pub submit_review-new :
      (s : Submission) (d : Desk)
      → IsNew h s d
      → submit_review h s d ≡ (reply_of h s, record_decision h s d)
  submit_review-new s d (r, (o, g)) = submit-own s d r o ∙ ap (λ x. with_existing h s d x) g

  IsStored-first :
      (s : Submission) (d : Desk)
      → IsNew h s d
      → IsStored s (decision_of h s) (submit_review h s d).1
  IsStored-first s d n =
      subst (IsStored s (decision_of h s)) (sym (ap (λ r. r.1) (submit_review-new s d n)))
        (IsStored-new s d n)

  own_repeated : (s : Submission) → is_repeated (decision_of h s) s.payload ≡ true
  own_repeated s = rw (decision_beq_refl s.payload.decision, same_id s.payload.comment) refl

  with_existing-own :
      (s : Submission) (d : Desk) (uuid : String) (now : ℕ)
      → with_existing h (record s { uuid = uuid; now = now }) d (some (decision_of h s))
        ≡ (created (decision_of h s), d)
  with_existing-own s d uuid now = rw (own_repeated s) refl

  -- An officer's request on a case of the officer's IBU, with a key that the case has not seen,
  -- creates its decision and is answered with it, or with 500 if the audit refuses a reference; in
  -- both cases, sent again with the same key, at any time and after any other requests, it is answered
  -- with that decision and changes nothing.
  pub submit_review_replay :
      (s : Submission) (d : Desk) (uuid : String) (now : ℕ) (ts : List Submission)
      → IsNew h s d
      → ((submit_review h s d).0 ≡ reply_of h s)
        × (submit_review h
              (record s { uuid = uuid; now = now })
              (submit_all h ts (submit_review h s d).1)
            ≡ (created (decision_of h s), submit_all h ts (submit_review h s d).1))
  submit_review_replay s d uuid now ts n =
      let d' = submit_all h ts (submit_review h s d).1 in
      let (r, (o, g)) =
        IsStored-all s ts (decision_of h s) (submit_review h s d).1 (IsStored-first s d n) in
      (
        ap (λ x. x.0) (submit_review-new s d n),
        submit-own (record s { uuid = uuid; now = now }) d' r o
            ∙ (ap (λ x. with_existing h (record s { uuid = uuid; now = now }) d' x) g
                ∙ with_existing-own s d' uuid now),
      )

  with_existing-other :
      (s : Submission) (d : Desk) (other : ReviewRequest) (uuid : String) (now : ℕ)
      → is_repeated (decision_of h s) other ≡ false
      → with_existing h
          (record s { payload = other; uuid = uuid; now = now })
          d
          (some (decision_of h s))
        ≡ (http_error 409 "Idempotency key was already used", d)
  with_existing-other s d other uuid now ne = rw ne refl

  -- After an officer's request has created its decision, and after any other requests, the same
  -- officer's request with the same key on the same case but another decision or comment is refused
  -- with 409 and changes nothing.
  pub submit_review-conflict :
      (s : Submission) (d : Desk) (other : ReviewRequest) (uuid : String) (now : ℕ)
      (ts : List Submission)
      → IsNew h s d
      → is_repeated (decision_of h s) other ≡ false
      → submit_review h
          (record s { payload = other; uuid = uuid; now = now })
          (submit_all h ts (submit_review h s d).1)
        ≡ (
          http_error 409 "Idempotency key was already used",
          submit_all h ts (submit_review h s d).1,
        )
  submit_review-conflict s d other uuid now ts n ne =
      let d' = submit_all h ts (submit_review h s d).1 in
      let (r, (o, g)) =
        IsStored-all s ts (decision_of h s) (submit_review h s d).1 (IsStored-first s d n) in
      submit-own (record s { payload = other; uuid = uuid; now = now }) d' r o
      ∙ (ap (λ x. with_existing h (record s { payload = other; uuid = uuid; now = now }) d' x) g
          ∙ with_existing-other s d' other uuid now ne)
