-- ===== src/Review/Status.antt =====
-- apps/api/tradesentry_api/dashboard_api.py: a case's status and its latest decision.
use mathlib.Core.Path.{subst}
use trade_sentry.Prelude.{
  String, ◌≡◌, refl, sym, ap, false, Option, none, some, List, [], ◌∷◌, last, last-snoc, arith,
  Bool-cases, inl, inr, string_eq, ◌==◌,
}
use trade_sentry.Review.{
  ReviewHost, Desk, Submission, OfficerDecision, CaseRecord, officer, get_case, list_for_case,
  decision_of, record_decision, status_after, submit_review, submit_all,
}
use trade_sentry.Review.Authority.{IsOwn, IsNew, submit_review-step}
use trade_sentry.Review.Store.{
  with_status, same_id, get_case-update, get_case-update_other, keep-snoc_in, keep-snoc_out,
}

-- the latest decision of a case is an officer's, and is what the case's status says
abbrev pub IsAgreed : Option OfficerDecision → Option CaseRecord → Type 0
IsAgreed none o = Unit
IsAgreed (some x) none = ⊥
IsAgreed (some x) (some c) = (x.officer_role ≡ officer) × (c.status ≡ status_after x.decision)

-- ... of the case with this identifier
abbrev pub IsInAccord : String → Desk → Type 0
IsInAccord id d = IsAgreed (last (list_for_case id d.decisions)) (get_case id d.cases)

IsAgreed-with_status :
    (x : OfficerDecision) (ibu : String) (o : Option CaseRecord)
    → IsOwn ibu o
    → x.officer_role ≡ officer
    → IsAgreed (some x) (with_status (status_after x.decision) o)
unfolding with_status
IsAgreed-with_status x ibu none k r = absurd k
IsAgreed-with_status x ibu (some c) k r = (r, refl)

module _ (h : ReviewHost) where
  open h use {sha256}

  IsInAccord-same :
      (s : Submission) (d : Desk) → IsNew h s d → IsInAccord s.case_id (record_decision h s d)
  unfolding record_decision
  IsInAccord-same s d (r, (o, g)) =
      rw
        (
          keep-snoc_in (λ i. i.case_id == s.case_id) d.decisions (decision_of h s)
              (same_id s.case_id),
          last-snoc (list_for_case s.case_id d.decisions) (decision_of h s),
          get_case-update s.case_id (status_after s.payload.decision) d.cases,
        )
        (IsAgreed-with_status (decision_of h s) s.principal.ibu_id (get_case s.case_id d.cases) o r)

  IsInAccord-other :
      (id : String) (s : Submission) (d : Desk)
      → (id == s.case_id) ≡ false
      → (s.case_id == id) ≡ false
      → IsInAccord id d
      → IsInAccord id (record_decision h s d)
  unfolding record_decision
  IsInAccord-other id s d n m k =
      rw
        (
          keep-snoc_out (λ i. i.case_id == id) d.decisions (decision_of h s) m,
          get_case-update_other id s.case_id (status_after s.payload.decision) d.cases n,
        )
        k

  IsInAccord-record :
      (id : String) (s : Submission) (d : Desk)
      → IsNew h s d
      → IsInAccord id d
      → IsInAccord id (record_decision h s d)
  IsInAccord-record id s d n k = elim (Bool-cases (id == s.case_id)) [
    | inl e ↦
        subst (λ i. IsInAccord i (record_decision h s d))
          (sym ((string_eq.beq_iff id s.case_id).0 e)) (IsInAccord-same s d n)
    | inr e ↦
        IsInAccord-other id s d e
          (ground (arith, string_eq.beq_iff id s.case_id, string_eq.beq_iff s.case_id id)) k
  ]

  IsInAccord-submit :
      (id : String) (s : Submission) (d : Desk)
      → IsInAccord id d
      → IsInAccord id (submit_review h s d).1
  IsInAccord-submit id s d k = elim (submit_review-step h s d) [
    | inl e ↦ subst (IsInAccord id) (sym e) k
    | inr e ↦ subst (IsInAccord id) (sym (ap (λ r. r.1) e.1)) (IsInAccord-record id s d e.0 k)
  ]

  -- Whatever requests come in, in any order, the latest decision of a case stays an officer's and what
  -- the status of the case says.
  pub IsInAccord-submit_all :
      (id : String) (ss : List Submission) (d : Desk)
      → IsInAccord id d
      → IsInAccord id (submit_all h ss d)
  unfolding submit_all
  IsInAccord-submit_all id [] d k = k
  IsInAccord-submit_all id (s ∷ ss) d k =
      IsInAccord-submit_all id ss (submit_review h s d).1 (IsInAccord-submit id s d k)
