-- ===== src/Middlewares.antt =====
-- blocks_genesis/_middlewares/tenant_middleware.py: the tenant of a request, and the context in which
-- the rest of the application answers it.
pub mod Sanitized
pub mod Admitted
mod Tests
use blocks_genesis_py.Prelude.{
  ℕ, String, Bool, true, false, ◌&&◌, ◌||◌, not, List, [], ◌∷◌, Option, none, some, any, is_nil,
  ◌==◌, if◌then◌else◌, nat_eq,
}
use blocks_genesis_py.Prelude.Dict.{Dict, get}
use blocks_genesis_py.Prelude.Result.{Result, ok, err}
use blocks_genesis_py.Prelude.Text.{
  is_empty, is_blank, strip, lower, contains, starts_with, concat, or_text, rstrip_of,
}
use blocks_genesis_py.Context.Record.{BlocksContext, empty_context}
use blocks_genesis_py.Context.Domain.{
  normalize_domain, is_localhost_host, resolve_application_domain,
}
use blocks_genesis_py.Tenancy.Tenant.{Tenant, Application}
use blocks_genesis_py.Auth.Host.{Request, header, World, AuthError, unhandled, Exec}
use blocks_genesis_py.Auth.Exec.{◌>>=◌, ◌>>◌, pure, raise, modify}

abbrev pub sensitive_keys : List String
sensitive_keys =
    "authorization" ∷ "cookie" ∷ "set-cookie" ∷ "secret" ∷ "x-blocks-service-key" ∷ "x-api-key"
    ∷ "token" ∷ "access_token" ∷ "refresh_token" ∷ "password" ∷ []

unfoldable pub is_sensitive_key : String → Bool
is_sensitive_key key =
    let key_lower = lower key in
    not (is_empty key)
    && (any (λ k. k == key_lower) sensitive_keys
        || contains key_lower "token"
        || contains key_lower "secret"
        || contains key_lower "password")

unfoldable pub sanitize_dict : Dict String → Dict String
unfolding is_sensitive_key
sanitize_dict [] = []
sanitize_dict ((k, v) ∷ d) = (k, if is_sensitive_key k then "[REDACTED]" else v) ∷ sanitize_dict d

-- What is taken from outside: the host name that `urllib.parse` finds in a URL, the tenant service,
-- where it is initialized, whether `int` reads a text, and the clock as a text.
pub record Site : Type 0 where
  pub hostname : String → Option String
  pub service_up : Bool
  pub get_tenant : String → Option Tenant
  pub get_tenant_by_domain : String → Option Tenant
  pub is_int : String → Bool
  pub now : String

pub record HttpRequest : Type 0 where
  pub request : Request
  pub path : String
  -- the host name of the base URL
  pub base_host : Option String

pub record Response : Type 0 where
  pub status_code : ℕ
  pub headers : Dict String
  -- of a rejection, the message in its JSON
  pub body : String

-- `self.included_paths`
unfoldable pub included_paths : List String → List String
included_paths paths = if is_nil paths then "/api" ∷ [] else paths

unfoldable pub is_included : List String → String → Bool
unfolding included_paths
is_included paths path =
    any (λ p. path == p || starts_with path (concat (rstrip_of "/ " p) "/")) (included_paths paths)

pub text_or_empty : Option String → String
text_or_empty none = ""
text_or_empty (some s) = s

unfoldable pub api_key : Request → String
unfolding text_or_empty
api_key request = or_text (text_or_empty (header request "x-blocks-key")) (
    or_text (text_or_empty (get request.query_params "x-blocks-key"))
      (text_or_empty (get request.query_params "tenant_id")))

unfoldable pub reject : ℕ → String → Response
reject status message = record { status_code = status; headers = []; body = message }

module _ (site : Site) where
  host_or : Option String → String → String
  host_or none url = normalize_domain site.hostname url
  host_or (some host) url = lower host

  -- `extract_domain` inside `_is_valid_origin_or_referer`
  unfoldable pub extract_domain : String → String
  unfolding host_or
  extract_domain url =
      let candidate = if contains url "://" then url else concat "//" url in
      if is_empty url then "" else host_or (site.hostname candidate) url

  unfoldable pub allowed : List Application → List String
  unfolding extract_domain
  allowed [] = []
  allowed (a ∷ applications) =
      let rest = allowed applications in
      if is_empty a.domain then rest else extract_domain a.domain ∷ rest

  unfoldable pub current_domain : Request → String
  unfolding extract_domain text_or_empty
  current_domain request =
      or_text (extract_domain (text_or_empty (header request "origin")))
        (extract_domain (text_or_empty (header request "referer")))

  unfoldable pub is_valid_origin_or_referer : Request → Tenant → Bool
  unfolding current_domain allowed
  is_valid_origin_or_referer request tenant =
      let current = current_domain request in
      is_empty current
      || is_localhost_host site.hostname current
      || any (λ d. d == current) (allowed tenant.applications)

  -- The tenant, or the response that rejects the request.
  checked : Request → Option Tenant → Result Response Tenant
  unfolding is_valid_origin_or_referer reject
  checked request none = err (reject 404 "Not_Found: Application_Not_Found")
  checked request (some tenant) =
      if tenant.is_disabled
      then err (reject 404 "Not_Found: Application_Not_Found")
      else if is_valid_origin_or_referer request tenant
      then ok tenant
      else err (reject 406 "NotAcceptable: Invalid_Origin_Or_Referer")

  -- `_resolve_tenant_or_reject`, with an initialized tenant service.
  unfoldable pub resolve_tenant_or_reject : HttpRequest → Result Response Tenant
  unfolding checked api_key reject text_or_empty
  resolve_tenant_or_reject r =
      let key = api_key r.request in
      let host = text_or_empty r.base_host in
      if is_empty key
      then if is_localhost_host site.hostname host
        then err (reject 400 "BadRequest: Missing_Tenant_Key_Or_Id")
        else checked r.request (site.get_tenant_by_domain host)
      else checked r.request (site.get_tenant key)

  -- The context of a request that nobody has authenticated yet.
  unfoldable pub anonymous_context : HttpRequest → Tenant → BlocksContext
  unfolding text_or_empty
  anonymous_context r tenant = record empty_context {
    tenant_id = tenant.tenant_id;
    request_uri = r.path;
    expire_on = some site.now;
    original_tenant_id = tenant.tenant_id;
    application_domain = text_or_empty (resolve_application_domain site.hostname r.request.headers);
  }

  -- `int(request.headers.get("content-length", 0))` does not raise.
  unfoldable pub is_sized : Request → Bool
  is_sized request = elim (header request "content-length") [ none ↦ true | some s ↦ site.is_int s ]

  -- From the tenant on: the context is set before the content length is read.
  passed : Exec Response → HttpRequest → Result Response Tenant → Exec Response
  unfolding anonymous_context is_sized
  passed call_next r (err response) = pure response
  passed call_next r (ok tenant) =
      modify (λ w. record w { context = some (anonymous_context r tenant) })
      >> (if is_sized r.request then call_next else raise unhandled)

  -- What the `try` of `dispatch` holds.
  handled : Exec Response → HttpRequest → Exec Response
  unfolding passed resolve_tenant_or_reject
  handled call_next r =
      if site.service_up then passed call_next r (resolve_tenant_or_reject r) else raise unhandled

  -- `finally: clear_context()`
  unfoldable pub cleared : Result AuthError Response × World → Result AuthError Response × World
  cleared (r, w) = (r, record w { context = none })

  unfoldable pub dispatch : List String → Exec Response → HttpRequest → Exec Response
  unfolding handled cleared is_included
  dispatch paths call_next r w =
      if is_included paths r.path then cleared (handled call_next r w) else call_next w
