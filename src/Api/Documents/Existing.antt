-- ===== src/Api/Documents/Existing.antt =====
-- A case that is created under an identifier that is taken.
use Prim.Native.String.{◌++◌ as ◌+◌}
use trade_sentry.Prelude.{String, ◌≡◌, refl, true, false, some, [], ◌∷◌, string_eq}
use trade_sentry.Prelude.Text.{is_text}
use trade_sentry.Review.{CaseRecord, get_case, has_role}
use trade_sentry.Api.{ApiHost, Request, Stores, ok, admin, audit, is_sensitive}
use trade_sentry.Api.Documents.{create_case}

module _ (h : ApiHost) (r : Request) (s : Stores) (case_id : String) (k : CaseRecord) where
  -- If the identifier is taken, by whatever IBU, an administrator who creates a case of the own IBU
  -- under it is answered with the identifier, the IBU and the status of the case that has it, and the
  -- cases stay as they are.
  pub create_case-existing :
      is_text case_id ≡ true
      → get_case case_id s.cases ≡ some k
      → has_role r.principal (admin ∷ []) ≡ true
      → is_sensitive h ("case://" + k.id) ≡ false
      → let (answer, t) =
          create_case h r (record { case_id = some case_id; ibu_id = r.principal.ibu_id }) s in
        (answer ≡ ok (record { case_id = k.id; ibu_id = k.ibu_id; status = k.status }))
        × (t.cases ≡ s.cases)
  unfolding create_case audit
  create_case-existing t e a f =
      let own = (string_eq.beq_iff r.principal.ibu_id r.principal.ibu_id).1 refl in
      (rw (a, own, t, e, f) refl, rw (a, own, t, e, f) refl)
