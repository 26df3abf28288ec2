-- ===== src/Review/Authority.antt =====
-- apps/api/tradesentry_api/dashboard_api.py: who decides.
use mathlib.Core.Path.{subst}
use trade_sentry.Prelude.{
  String, ◌≡◌, refl, sym, ap, ◌++◌, if◌then◌else◌, true, ◌⊎◌, Option, none, some, [], ◌∷◌, arith,
  Bool-cases, inl, inr, string_eq, ◌==◌, ◌||◌,
}
use trade_sentry.Review.Store.{with_status, get_case-update, get_case-update_other}
use trade_sentry.Review.{
  ReviewHost, Desk, Submission, OfficerDecision, CaseRecord, officer, view_roles, has_role,
  get_case, get_by_idempotency, decision_of, reply_of, is_repeated, is_refused, decision_event,
  status_event, status_after, record_decision, with_existing, with_case, submit_review, http_error,
  created,
}

-- the case that is found is one of the IBU
abbrev pub IsOwn : String → Option CaseRecord → Type 0
IsOwn ibu none = ⊥
IsOwn ibu (some c) = c.ibu_id ≡ ibu

module _ (h : ReviewHost) where
  open h use {sha256}

  -- A request changed nothing, or was an officer's on a case of the officer's own IBU and with a key
  -- that the case had not seen.
  abbrev pub IsNew : Submission → Desk → Type 0
  IsNew s d =
      (s.principal.role ≡ officer)
      × (IsOwn s.principal.ibu_id (get_case s.case_id d.cases)
          × (get_by_idempotency s.case_id (sha256 s.idempotency_key) d.decisions ≡ none))

  role_officer :
      (s : Submission) → has_role s.principal (officer ∷ []) ≡ true → s.principal.role ≡ officer
  role_officer s e = ground (arith, string_eq.beq_iff s.principal.role officer)

  with_existing-step :
      (s : Submission) (d : Desk) (o : Option OfficerDecision)
      → ((with_existing h s d o).1 ≡ d)
        ⊎ ((o ≡ none) × (with_existing h s d o ≡ (reply_of h s, record_decision h s d)))
  with_existing-step s d (some x) = elim (Bool-cases (is_repeated x s.payload)) [
    | inl e ↦ rw e (inl refl)
    | inr e ↦ rw e (inl refl)
  ]
  with_existing-step s d none = inr (refl, refl)

  with_case-step :
      (s : Submission) (d : Desk) (o : Option CaseRecord)
      → ((with_case h s d o).1 ≡ d)
        ⊎ (IsOwn s.principal.ibu_id o
            × ((get_by_idempotency s.case_id (sha256 s.idempotency_key) d.decisions ≡ none)
                × (with_case h s d o ≡ (reply_of h s, record_decision h s d))))
  with_case-step s d none = inl refl
  with_case-step s d (some c) = elim (Bool-cases (c.ibu_id == s.principal.ibu_id)) [
    | inl e ↦
        rw e
          (elim (with_existing-step s d
            (get_by_idempotency s.case_id (sha256 s.idempotency_key) d.decisions)) [
              | inl q ↦ inl q
              | inr q ↦ inr ((string_eq.beq_iff c.ibu_id s.principal.ibu_id).0 e, q)
            ])
    | inr e ↦ rw e (inl refl)
  ]

  -- The stores stay as they are, or the decision is new.
  pub submit_review-step :
      (s : Submission) (d : Desk)
      → ((submit_review h s d).1 ≡ d)
        ⊎ (IsNew s d × (submit_review h s d ≡ (reply_of h s, record_decision h s d)))
  unfolding submit_review
  submit_review-step s d = elim (Bool-cases (has_role s.principal view_roles)) [
    | inr e ↦ rw e (inl refl)
    | inl e ↦ rw e (elim (Bool-cases (has_role s.principal (officer ∷ []))) [
      | inr f ↦ rw f (inl refl)
      | inl f ↦ rw f (elim (with_case-step s d (get_case s.case_id d.cases)) [
        | inl q ↦ inl q
        | inr q ↦ inr ((role_officer s f, (q.0, q.1.0)), q.1.1)
      ])
    ])
  ]

  -- the case that `get_case` finds afterwards
  abbrev pub case_after : (s : Submission) (d : Desk) (id : String) → Option CaseRecord
  case_after s d id =
      if id == s.case_id
      then with_status (status_after s.payload.decision) (get_case s.case_id d.cases)
      else get_case id d.cases

  get_case-record :
      (s : Submission) (d : Desk) (id : String)
      → get_case id (record_decision h s d).cases ≡ case_after s d id
  unfolding record_decision
  get_case-record s d id = elim (Bool-cases (id == s.case_id)) [
    | inl e ↦
        rw (e, (string_eq.beq_iff id s.case_id).0 e)
          (get_case-update s.case_id (status_after s.payload.decision) d.cases)
    | inr e ↦ rw e (get_case-update_other id s.case_id (status_after s.payload.decision) d.cases e)
  ]

  -- What a decision makes of the stores: it is the latest one, the case has the status that it says
  -- and every other case is as it was, and both are on record, up to a reference that is refused.
  pub record IsDecided (s : Submission) (d t : Desk) : Type 0 where
    pub is_saved : t.decisions ≡ d.decisions ++ decision_of h s ∷ []
    pub has_status : (id : String) → get_case id t.cases ≡ case_after s d id
    pub is_recorded :
        t.events
        ≡ d.events
          ++ (if is_refused h (decision_event h s)
              then []
              else if is_refused h (status_event h s)
              then decision_event h s ∷ []
              else decision_event h s ∷ status_event h s ∷ [])

  record_decision-IsDecided : (s : Submission) (d : Desk) → IsDecided s d (record_decision h s d)
  record_decision-IsDecided s d = record {
    is_saved = unfold record_decision in refl;
    has_status = get_case-record s d;
    is_recorded = unfold record_decision in refl;
  }

  -- A review request either leaves the stores as they are, or comes from an officer, about a case of
  -- the officer's own IBU, with a key that the case has not seen. Then its decision is saved behind
  -- the others, its case has the status that the decision says and every other case is as it was,
  -- the decision and the change of status are put on record one after the other, and the answer is
  -- the decision; a reference that the audit refuses ends the record there and makes the answer 500.
  pub submit_review_cases :
      (s : Submission) (d : Desk)
      → ((submit_review h s d).1 ≡ d)
        ⊎ (IsNew s d
            × ((submit_review h s d).0 ≡ (
                if is_refused h (decision_event h s) || is_refused h (status_event h s)
                then http_error 500 "The request could not be completed."
                else created (decision_of h s)))
            × IsDecided s d (submit_review h s d).1)
  submit_review_cases s d = elim (submit_review-step s d) [
    | inl e ↦ inl e
    | inr (n, e) ↦ inr (
      n,
      ap (λ r. r.0) e,
      subst (IsDecided s d) (sym (ap (λ r. r.1) e)) (record_decision-IsDecided s d),
    )
  ]
