-- ===== src/Api/Access/Identity.antt =====
-- Who reaches a handler of a protected path.
use trade_sentry.Prelude.{
  ℕ, String, ◌≡◌, refl, sym, Bool, true, false, Option, some, Bool-cases, inl, inr, string_eq, ◌==◌,
  arith, Option-cases,
}
use trade_sentry.Prelude.Int.{pos, ◌-ℤ◌, ltb_ℤ}
use trade_sentry.Prelude.Text.{is_text}
use trade_sentry.Review.{Principal, has_role, view_roles}
use trade_sentry.Api.{Answer, ok, http_error}
use trade_sentry.Api.Access.{
  AuthHost, Settings, Claims, Incoming, Gate, Verdict, goes_on, allow, limited, when_allowed,
  is_bearer, key_given, key_or_empty, token_in, principal_of, has_identity, with_claims,
  authenticate, viewer, is_protected, is_upload, pass, with_principal, security_middleware,
}

-- What is allowed goes on as the next step says.
when_allowed-goes_on :
    (detail : String) (b : Bool) (g : Gate) (next : Gate → Verdict × Gate) (o : Option Principal)
    → (when_allowed detail b g next).0 ≡ goes_on o
    → (next g).0 ≡ goes_on o
when_allowed-goes_on detail true g next o e = e
when_allowed-goes_on detail false g next o e = absurd (cc)

limited-goes_on :
    (key : String) (limit now : ℕ) (detail : String) (next : Gate → Verdict × Gate) (g : Gate)
    (o : Option Principal)
    → (limited key limit now detail next g).0 ≡ goes_on o
    → (g' : Gate) × ((next g').0 ≡ goes_on o)
limited-goes_on key limit now detail next g o e =
    let a = allow key limit 60 now g.windows in
    let g' : Gate = record g { windows = a.1 } in (g', when_allowed-goes_on detail a.0 g' next o e)

module _ (h : AuthHost) (settings : Settings) (r : Incoming) where
  -- The principal is that of a token which the key verifies: an access token whose lifetime keeps to
  -- the policy, of a role that may look at cases, with an officer and an IBU.
  pub record IsAuthenticated (p : Principal) : Type 0 where
    pub claims : Claims
    pub has_key : key_given settings.jwt_public_key ≡ true
    pub is_verified :
        h.decode (h.strip (token_in r.authorization)) (key_or_empty settings.jwt_public_key)
        ≡ some claims
    pub is_principal : p ≡ principal_of h claims
    pub is_access : h.lower (h.strip claims.token_type) ≡ "access"
    pub keeps_ttl : ltb_ℤ (pos settings.jwt_access_ttl_seconds) (claims.exp -ℤ claims.iat) ≡ false
    pub is_viewer : has_role p view_roles ≡ true
    pub has_officer : is_text p.officer_id ≡ true
    pub has_ibu : is_text p.ibu_id ≡ true

  viewer-ok :
      (a : Answer Principal) (p : Principal)
      → viewer a ≡ ok p
      → (a ≡ ok p) × (has_role p view_roles ≡ true)
  viewer-ok (http_error status detail) p e = absurd (cc)
  viewer-ok (ok q) p e = elim (Bool-cases (has_role q view_roles)) [
    | inr f ↦ absurd (let x = rw f at e in cc)
    | inl f ↦ let x : Answer.ok q ≡ ok p = rw f at e in let y : q ≡ p = cc in (x, rw (← y) f)
  ]

  identity-parts :
      (p : Principal)
      → has_identity h p ≡ true
      → (is_text p.officer_id ≡ true) × (is_text p.ibu_id ≡ true)
  identity-parts p e = ground arith

  claims-ok :
      (c : Claims) (p : Principal)
      → with_claims h settings.jwt_access_ttl_seconds (some c) ≡ ok p
      → (p ≡ principal_of h c)
        × (h.lower (h.strip c.token_type) ≡ "access")
        × (ltb_ℤ (pos settings.jwt_access_ttl_seconds) (c.exp -ℤ c.iat) ≡ false)
        × (has_identity h p ≡ true)
  claims-ok c p e = elim (Bool-cases (h.lower (h.strip c.token_type) == "access")) [
    | inr a ↦ absurd (let x = rw a at e in cc)
    | inl a ↦ elim (Bool-cases (ltb_ℤ (pos settings.jwt_access_ttl_seconds) (c.exp -ℤ c.iat))) [
      | inl t ↦ absurd (let x = rw (a, t) at e in cc)
      | inr t ↦ elim (Bool-cases (has_identity h (principal_of h c))) [
        | inr i ↦ absurd (let x = rw (a, t, i) at e in cc)
        | inl i ↦
            let x : Answer.ok (principal_of h c) ≡ ok p = rw (a, t, i) at e in
            let y : principal_of h c ≡ p = cc in (sym y, (string_eq.beq_iff _ _).0 a, t, rw (← y) i)
      ]
    ]
  ]

  authenticate-IsAuthenticated :
      (p : Principal)
      → authenticate h settings r.authorization ≡ ok p
      → has_role p view_roles ≡ true
      → IsAuthenticated p
  unfolding authenticate
  authenticate-IsAuthenticated p e v =
      let decoded =
        h.decode (h.strip (token_in r.authorization)) (key_or_empty settings.jwt_public_key) in
      elim (Bool-cases (is_bearer r.authorization)) [
        | inr b ↦ absurd (let x = rw b at e in cc)
        | inl b ↦ elim (Bool-cases (key_given settings.jwt_public_key)) [
          | inr k ↦ absurd (let x = rw (b, k) at e in cc)
          | inl k ↦ elim (Option-cases decoded) [
            | inl d ↦ absurd (let x = rw (b, k, d) at e in cc)
            | inr (c, d) ↦
                let (same, access, ttl, identity) = claims-ok c p (rw (b, k, d) at e) in
                let (officer, ibu) = identity-parts p identity in
                record {
                  claims = c;
                  has_key = k;
                  is_verified = d;
                  is_principal = same;
                  is_access = access;
                  keeps_ttl = ttl;
                  is_viewer = v;
                  has_officer = officer;
                  has_ibu = ibu;
                }
          ]
        ]
      ]

  -- with the limits behind the authentication
  limited_principal :
      (p : Principal) (g : Gate) (o : Option Principal)
      → (with_principal h settings r (ok p) g).0 ≡ goes_on o
      → o ≡ some p
  limited_principal p g o e =
      let (g', f) = limited-goes_on _ _ _ _ _ g o e in
      elim (Bool-cases (is_upload h settings r)) [
        | inl u ↦
            let (g'', x) = limited-goes_on _ _ _ _ (pass h settings r p) g' o (rw u at f) in cc
        | inr u ↦ let x = rw u at f in cc
      ]

  admitted_principal :
      (a : Answer Principal) (g : Gate) (o : Option Principal)
      → viewer (authenticate h settings r.authorization) ≡ a
      → (with_principal h settings r a g).0 ≡ goes_on o
      → (p : Principal) × (o ≡ some p) × IsAuthenticated p
  admitted_principal (http_error status detail) g o q e = absurd (cc)
  admitted_principal (ok p) g o q e =
      let (a, v) = viewer-ok (authenticate h settings r.authorization) p q in
      (p, limited_principal p g o e, authenticate-IsAuthenticated p a v)

  -- A request on a protected path that the middleware lets through has an authenticated principal.
  pub security_middleware-IsAuthenticated :
      (g : Gate) (o : Option Principal)
      → is_protected r.path ≡ true
      → (security_middleware h settings r g).0 ≡ goes_on o
      → (p : Principal) × (o ≡ some p) × IsAuthenticated p
  unfolding security_middleware
  security_middleware-IsAuthenticated g o protected e =
      let (g', f) = limited-goes_on _ _ _ _ _ g o e in
      admitted_principal (viewer (authenticate h settings r.authorization)) g' o refl
        (rw protected at f)
