-- ===== src/Api/Compliance/Stored.antt =====
-- The result of a compliance run is the one that is read afterwards.
use Prim.Native.String.{◌++◌ as ◌+◌}
use mathlib.Core.Path.{subst}
use trade_sentry.Prelude.{
  String, ◌≡◌, refl, ap, ◌∙◌, true, Option, some, List, [], ◌∷◌, is_empty, Option-cases, Bool-cases,
  inl, inr, string_eq, ◌==◌,
}
use trade_sentry.Contracts.Documents.{letter_of_credit}
use trade_sentry.Contracts.Fields.{LetterOfCreditFields}
use trade_sentry.Compliance.Model.{ComplianceCaseFacts, ComplianceResult}
use trade_sentry.Compliance.Finding.{Host}
use trade_sentry.Compliance.Completeness.{check_document_completeness}
use trade_sentry.Compliance.Engine.{complete_result, incomplete_result, evaluate_compliance}
use trade_sentry.Review.{CaseRecord, get_case, has_role}
use trade_sentry.Api.{ApiHost, Request, Stores, Answer, ok, admin, case_or_404, audit, is_sensitive}
use trade_sentry.Api.Documents.{documents_of}
use trade_sentry.Api.Compliance.{
  ComplianceRunRequest, as_lc, fields_of, document_of_type, facts_of, build_compliance_facts,
  payload_or_default, put_result, get_result, run_compliance, get_compliance,
}

get_result-put_result :
    (x : ComplianceResult) (rs : List ComplianceResult)
    → get_result x.case_id (put_result x rs) ≡ some x
get_result-put_result x [] = rw ((string_eq.beq_iff x.case_id x.case_id).1 refl) refl
get_result-put_result x (y ∷ ys) = elim (Bool-cases (y.case_id == x.case_id)) [
  | inl e ↦ rw (e, (string_eq.beq_iff x.case_id x.case_id).1 refl) refl
  | inr e ↦ rw (e, e) (get_result-put_result x ys)
]

evaluate-case_id :
    (h : Host) (facts : ComplianceCaseFacts) → (evaluate_compliance h facts).case_id ≡ facts.case_id
unfolding evaluate_compliance complete_result incomplete_result
evaluate-case_id h facts =
    elim (Bool-cases
      (is_empty (check_document_completeness h facts.lc facts.presented_documents))) [
        | inl e ↦ rw e refl
        | inr e ↦ rw e refl
      ]

-- What a run leaves: the result is stored under the case, which is the IBU's own.
record IsStored (ibu_id case_id : String) (x : ComplianceResult) (t : Stores) : Type 0 where
  the_case : CaseRecord
  is_there : get_case case_id t.cases ≡ some the_case
  is_own : (the_case.ibu_id == ibu_id) ≡ true
  is_kept : get_result case_id t.compliance ≡ some x

module _ (h : ApiHost) (r : Request) (case_id : String) (payload : Option ComplianceRunRequest)
    (s : Stores) (x : ComplianceResult) where
  abbrev credit : Option LetterOfCreditFields
  credit = as_lc (fields_of (document_of_type letter_of_credit (documents_of case_id s.documents)))

  kept_result :
      (f : ComplianceCaseFacts)
      → f.case_id ≡ case_id
      → Answer.ok (evaluate_compliance h.rule_host f) ≡ Answer.ok x
      → get_result case_id (put_result (evaluate_compliance h.rule_host f) s.compliance) ≡ some x
  kept_result f e q =
      let y = evaluate_compliance h.rule_host f in
      let same : y ≡ x = cc in
      subst (λ c. get_result c (put_result y s.compliance) ≡ some y)
        (evaluate-case_id h.rule_host f ∙ e) (get_result-put_result y s.compliance)
      ∙ ap (λ z. some z) same

  ran :
      (run_compliance h r case_id payload s).0 ≡ ok x
      → IsStored r.principal.ibu_id case_id x (run_compliance h r case_id payload s).1
  unfolding run_compliance case_or_404 build_compliance_facts facts_of audit
  ran e = elim (Bool-cases (has_role r.principal (admin ∷ []))) [
    | inr a ↦ absurd (let y = rw a at e in cc)
    | inl a ↦ elim (Option-cases (get_case case_id s.cases)) [
      | inl n ↦ absurd (let y = rw (a, n) at e in cc)
      | inr (k, f) ↦ elim (Bool-cases (k.ibu_id == r.principal.ibu_id)) [
        | inr g ↦ absurd (let y = rw (a, f, g) at e in cc)
        | inl g ↦ elim (Option-cases credit) [
          | inl n ↦ absurd (let y = rw (a, f, g, n) at e in cc)
          | inr (lc, l) ↦
              elim (Bool-cases (is_sensitive h ("compliance://" + (case_id + "/evaluation")))) [
                | inl m ↦ absurd (let y = rw (a, f, g, l, m) at e in cc)
                | inr m ↦
                    rw (a, f, g, l, m)
                      (record {
                        the_case = k;
                        is_there = f;
                        is_own = g;
                        is_kept =
                            kept_result
                              (facts_of case_id (documents_of case_id s.documents)
                                (payload_or_default payload) r.now lc)
                              refl (rw (a, f, g, l, m) at e);
                      })
              ]
        ]
      ]
    ]
  ]

  -- The result that a compliance run answers is what anyone of the same IBU reads afterwards, and the
  -- reading changes nothing.
  pub get_compliance-run_compliance :
      (reader : Request)
      → reader.principal.ibu_id ≡ r.principal.ibu_id
      → (run_compliance h r case_id payload s).0 ≡ ok x
      → let t = (run_compliance h r case_id payload s).1 in
        get_compliance h reader case_id t ≡ (ok x, t)
  unfolding get_compliance case_or_404
  get_compliance-run_compliance reader same e =
      let k = ran e in rw (k.is_there, same, k.is_own, k.is_kept) refl
