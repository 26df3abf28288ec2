-- ===== src/Api/Access.antt =====
-- apps/api/tradesentry_api/auth.py, rate_limit.py and the middleware of main.py: what a request passes
-- before it reaches a handler.
pub mod Identity
pub mod Limits
use Prim.Native.String.{◌++◌ as ◌+◌}
use trade_sentry.Prelude.{
  ℕ, suc, ◌/◌, String, Bool, true, false, ◌&&◌, ◌||◌, not, Option, none, some, List, [], ◌∷◌, ◌++◌,
  elem, leb, nat_beq, string_eq, ◌==◌, if◌then◌else◌,
}
use trade_sentry.Prelude.Int.{ℤ, pos, ◌-ℤ◌, ltb_ℤ}
use trade_sentry.Prelude.Text.{is_text, show_nat}
use trade_sentry.Fraud.Common.{has_prefix, remove_prefix}
use trade_sentry.Review.{Principal, view_roles, has_role}
use trade_sentry.Api.{Answer, ok, http_error, or_unknown}

-- The claims of a token that `jwt.decode` accepts, with the required ones.
pub record Claims : Type 0 where
  pub officer_id : String
  pub role : String
  pub ibu_id : String
  pub token_type : String
  pub iat : ℤ
  pub exp : ℤ

-- `strip`, `upper` and `lower` of `str`, and `jwt.decode` with the key, which may raise.
pub record AuthHost : Type 0 where
  pub strip : String → String
  pub upper : String → String
  pub lower : String → String
  pub decode : (token key : String) → Option Claims

-- The settings that the middleware reads.
pub record Settings : Type 0 where
  pub jwt_public_key : Option String
  pub jwt_access_ttl_seconds : ℕ
  pub rate_limit_ip_per_minute : ℕ
  pub rate_limit_user_per_minute : ℕ
  pub rate_limit_upload_per_minute : ℕ

abbrev pub key_given : Option String → Bool
key_given none = false
key_given (some key) = is_text key

abbrev pub key_or_empty : Option String → String
key_or_empty none = ""
key_or_empty (some key) = key

abbrev pub is_bearer : Option String → Bool
is_bearer none = false
is_bearer (some authorization) = has_prefix "Bearer " authorization

abbrev pub token_in : Option String → String
token_in none = ""
token_in (some authorization) = remove_prefix "Bearer " authorization

-- `windows`, by the keys: the number of the window and the count
abbrev pub Windows : Type 0
Windows = List (String × (ℕ × ℕ))

-- `self.windows[key]`
abbrev pub window_of : (key : String) → Windows → ℕ × ℕ
window_of key [] = (0, 0)
window_of key ((k, w) ∷ ws) = if k == key then w else window_of key ws

abbrev pub set_window : (key : String) → ℕ × ℕ → Windows → Windows
set_window key w [] = (key, w) ∷ []
set_window key w ((k, v) ∷ ws) =
    let rest = set_window key w ws in if k == key then (key, w) ∷ ws else (k, v) ∷ rest

-- the count of the window, which is 0 if the stored window is another
abbrev pub count_in : (window : ℕ) → ℕ × ℕ → ℕ
count_in window (stored, count) = if nat_beq stored window then count else 0

-- `InMemoryRateLimiter.allow` at a time in seconds
unfoldable pub allow : (key : String) → (limit window_seconds now : ℕ) → Windows → Bool × Windows
allow key limit window_seconds now ws =
    let window = now / window_seconds in
    let count = suc (count_in window (window_of key ws)) in
    (leb count limit, set_window key (window, count) ws)

-- A request before it has a principal.
pub record Incoming : Type 0 where
  pub path : String
  pub is_post : Bool
  pub authorization : Option String
  pub client_host : Option String
  pub now : ℕ

-- The request goes on to its handler, with a principal if the path is protected; or it is answered.
pub data Verdict : Type 0 where
  goes_on : Option Principal → Verdict
  turned_away : (status_code : ℕ) → (detail : String) → Verdict

-- `text.endswith(suffix)`
abbrev pub ends_with : (suffix text : String) → Bool
ends_with suffix String.[] = suffix == String.[]
ends_with suffix (String.◌∷◌ c s) = (suffix == String.◌∷◌ c s) || ends_with suffix s

-- What the middleware keeps: the limiter's windows, and the references of the failures that it puts on
-- record.
pub record Gate : Type 0 where
  pub windows : Windows
  pub auth_failures : List String

-- `path.startswith(("/cases/", "/cross-ibu", "/audit-events"))`, or the path of all cases
abbrev pub is_protected : (path : String) → Bool
is_protected path =
    (path == "/cases")
    || (has_prefix "/cases/" path
        || (has_prefix "/cross-ibu" path || has_prefix "/audit-events" path))

module _ (h : AuthHost) where
  abbrev pub principal_of : Claims → Principal
  principal_of c = record {
    officer_id = h.strip c.officer_id;
    role = h.upper (h.strip c.role);
    ibu_id = h.strip c.ibu_id;
  }

  abbrev pub has_identity : Principal → Bool
  has_identity p = is_text p.officer_id && (is_text p.role && is_text p.ibu_id)

  -- with the claims of the token
  abbrev pub with_claims : (ttl : ℕ) → Option Claims → Answer Principal
  with_claims ttl none = http_error 401 "Invalid or expired bearer token"
  with_claims ttl (some c) =
      if not (h.lower (h.strip c.token_type) == "access")
      then http_error 401 "Access token required"
      else if ltb_ℤ (pos ttl) (c.exp -ℤ c.iat)
      then http_error 401 "Access token lifetime exceeds policy"
      else if not (has_identity (principal_of c))
      then http_error 401 "Token identity claims are incomplete"
      else ok (principal_of c)

  unfoldable pub authenticate : Settings → (authorization : Option String) → Answer Principal
  authenticate settings authorization =
      if not (is_bearer authorization)
      then http_error 401 "Valid bearer token required"
      else if not (key_given settings.jwt_public_key)
      then http_error 503 "JWT verification key is not configured"
      else with_claims settings.jwt_access_ttl_seconds
          (h.decode (h.strip (token_in authorization)) (key_or_empty settings.jwt_public_key))

-- `require_viewer`
abbrev pub viewer : Answer Principal → Answer Principal
viewer (ok p) = if has_role p view_roles then ok p else http_error 403 "Role access denied"
viewer (http_error status detail) = http_error status detail

-- the limiter's answer, and what follows if it allows the request
abbrev pub when_allowed : (detail : String) → Bool → Gate → (Gate → Verdict × Gate) → Verdict × Gate
when_allowed detail true g next = next g
when_allowed detail false g next = (turned_away 429 detail, g)

abbrev pub limited :
    (key : String)
    → (limit now : ℕ) → (detail : String) → (Gate → Verdict × Gate)
    → Gate
    → Verdict × Gate
limited key limit now detail next g =
    let (allowed, ws) = allow key limit 60 now g.windows in
    when_allowed detail allowed (record g { windows = ws }) next

module _ (h : AuthHost) (settings : Settings) (r : Incoming) where
  abbrev pub is_upload : Bool
  is_upload = r.is_post && (has_prefix "/cases/" r.path && ends_with "/documents" r.path)

  abbrev pub pass : Principal → Gate → Verdict × Gate
  pass p g = (goes_on (some p), g)

  -- the limits of the user and of the uploads
  abbrev pub with_principal : Answer Principal → Gate → Verdict × Gate
  with_principal (http_error status detail) g = (
    turned_away status detail,
    record g { auth_failures = g.auth_failures ++ ("auth://failure/" + show_nat status) ∷ [] },
  )
  with_principal (ok p) g =
      limited ("user:" + p.officer_id) settings.rate_limit_user_per_minute r.now
        "User rate limit exceeded"
        (if is_upload
          then limited ("upload:" + p.officer_id) settings.rate_limit_upload_per_minute r.now
              "Upload rate limit exceeded" (pass p)
          else pass p)
        g

  unfoldable pub security_middleware : Gate → Verdict × Gate
  security_middleware =
      limited ("ip:" + or_unknown r.client_host) settings.rate_limit_ip_per_minute r.now
        "IP rate limit exceeded"
        (if is_protected r.path
          then with_principal (viewer (authenticate h settings r.authorization))
          else λ g. (goes_on none, g))
