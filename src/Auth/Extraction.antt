-- ===== src/Auth/Extraction.antt =====
-- Where the token of a request comes from, in blocks_genesis/_auth/auth.py:
-- `extract_token_from_request`, `_extract_token_from_cookie` and `_try_localhost_alias_cookie`.
use blocks_genesis_py.Prelude.{
  String, Bool, true, false, not, ◌||◌, List, [], ◌∷◌, Option, none, some, ◌==◌, if◌then◌else◌,
}
use blocks_genesis_py.Prelude.Dict.{get}
use blocks_genesis_py.Prelude.Text.{is_empty, strip, lower, starts_with, drop}
use blocks_genesis_py.Context.Domain.{resolve_application_domain, is_localhost_host}
use blocks_genesis_py.Context.Record.{BlocksContext}
use blocks_genesis_py.Tenancy.Tenant.{Tenant, ThirdPartyJwtTokenParameters}
use blocks_genesis_py.Auth.Host.{Host, World, Request, header}

-- A text that is there and not empty.
abbrev pub filled : Option String → Option String
filled none = none
filled (some s) = if is_empty s then none else some s

abbrev pub text_or_empty : Option String → String
text_or_empty none = ""
text_or_empty (some s) = s

pub record Extracted : Type 0 where
  pub token : Option String
  pub is_third_party : Bool
  pub application_domain : Option String

abbrev nothing : Extracted
nothing = record { token = none; is_third_party = false; application_domain = none }

module _ (host : Host) (request : Request) where
  domain : Option String
  domain = resolve_application_domain host.hostname request.headers

  -- The loop over the loopback names.
  alias_cookie : String → List String → Option String
  alias_cookie application_domain [] = none
  alias_cookie application_domain (local_host ∷ rest) =
      let later = alias_cookie application_domain rest in
      let found = filled (get request.cookies local_host) in
      if local_host == application_domain
      then later
      else elim found [ none ↦ later | some token ↦ some token ]

  try_localhost_alias_cookie : Option String → Option String
  unfolding alias_cookie
  try_localhost_alias_cookie none = none
  try_localhost_alias_cookie (some d) =
      if is_empty d || not (is_localhost_host host.hostname d)
      then none
      else alias_cookie d ("localhost" ∷ "127.0.0.1" ∷ "::1" ∷ [])

  -- The cookie named by the tenant's third-party parameters.
  third_party_cookie : Option ThirdPartyJwtTokenParameters → Extracted
  unfolding domain
  third_party_cookie none = nothing
  third_party_cookie (some parameters) =
      if is_empty parameters.cookie_key
      then nothing
      else elim (filled (get request.cookies parameters.cookie_key)) [
        | none ↦ nothing
        | some token ↦ record {
          token = some token;
          is_third_party = true;
          application_domain = domain;
        }
      ]

  domain_cookie : Option String → Option String
  domain_cookie none = none
  domain_cookie (some d) = if is_empty d then none else filled (get request.cookies d)

  from_domain : Option Tenant → Extracted
  unfolding try_localhost_alias_cookie domain_cookie third_party_cookie
  from_domain tenant = elim (try_localhost_alias_cookie domain) [
    | some token ↦ record {
      token = some token;
      is_third_party = false;
      application_domain = domain;
    }
    | none ↦ elim (domain_cookie domain) [
      | some token ↦ record {
        token = some token;
        is_third_party = false;
        application_domain = domain;
      }
      | none ↦ elim tenant [
        | none ↦ nothing
        | some t ↦ third_party_cookie t.third_party_jwt_token_parameters
      ]
    ]
  ]

  extract_token_from_cookie : Option BlocksContext → Extracted
  unfolding from_domain
  extract_token_from_cookie none = nothing
  extract_token_from_cookie (some context) =
      if is_empty context.tenant_id
      then nothing
      else from_domain (host.get_tenant context.tenant_id)

  -- The token of the Authorization header, "" where it carries none.
  bearer_token : String
  bearer_token =
      let auth_header = text_or_empty (header request "Authorization") in
      if starts_with (lower auth_header) "bearer " then strip (drop 7 auth_header) else ""

  unfoldable pub extract_token_from_request : World → Extracted
  unfolding extract_token_from_cookie bearer_token
  extract_token_from_request w =
      if is_empty bearer_token
      then extract_token_from_cookie w.context
      else record { token = some bearer_token; is_third_party = false; application_domain = domain }
