-- ===== src/Auth/Authenticate.antt =====
-- The main handler of blocks_genesis/_auth/auth.py: `_validate_authenticated_token` and
-- `authenticate`, without the tracing properties and the log lines.
pub mod Ambient
pub mod Identity
use blocks_genesis_py.Prelude.{
  ℕ, String, Bool, true, false, not, List, [], ◌∷◌, Option, none, some, ◌==◌, if◌then◌else◌,
}
use blocks_genesis_py.Prelude.Dict.{Dict, get}
use blocks_genesis_py.Prelude.Result.{Result, ok, err}
use blocks_genesis_py.Prelude.Text.{is_empty, is_blank}
use blocks_genesis_py.Json.{Value, str}
use blocks_genesis_py.Context.Record.{BlocksContext}
use blocks_genesis_py.Context.Fields.{ValidationError}
use blocks_genesis_py.Context.Claims.{
  Claims, strip_reserved_claims, create_third_party_context, create_from_jwt_claims, ValueError,
  Profile,
}
use blocks_genesis_py.Tenancy.Tenant.{Tenant}
use blocks_genesis_py.Auth.ClaimsMapping.{Mapped, map_third_party_claims}
use blocks_genesis_py.Auth.Provider.{ThirdPartyJwtProvider}
use blocks_genesis_py.Auth.Host.{
  Host, Request, header, World, Exec, AuthError, http_exception, unhandled,
}
use blocks_genesis_py.Auth.Exec.{◌>>=◌, ◌>>◌, pure, raise, lift, gets, modify, resume}
use blocks_genesis_py.Auth.Extraction.{filled, text_or_empty, Extracted, extract_token_from_request}
use blocks_genesis_py.Auth.Primary.{
  Refusal, raised, invalid, resolve_signing_tenant, validate_jwt_token,
}
use blocks_genesis_py.Auth.Fallback.{ThirdPartyValidation, validate_with_fallback}

abbrev pub token_validation_failed : AuthError
token_validation_failed = http_exception 401 "Token validation failed"

-- The payload and the external provider that accepted it, `none` for a Blocks token.
abbrev pub Validated : Type 0
Validated = Claims × Option ThirdPartyJwtProvider

abbrev external : ThirdPartyValidation → Validated
external v = (v.claims, some v.provider)

-- PyJWT's error becomes a 401.
settled : Result Refusal Claims → Result AuthError Validated
settled (ok payload) = ok (payload, none)
settled (err (raised e)) = err e
settled (err invalid) = err token_validation_failed

unrefused : Option ThirdPartyValidation → Result AuthError Validated
unrefused none = err token_validation_failed
unrefused (some v) = ok (external v)

-- A ValueError is a 401, and pydantic's own error is a ValueError.
context_of : Result ValueError BlocksContext → Result AuthError BlocksContext
context_of (ok c) = ok c
context_of (err e) = err token_validation_failed

abbrev profile_of : Request → String → Mapped → String → String → Profile
profile_of request application_domain mapped email user_name = record {
  roles = mapped.roles;
  email = email;
  user_name = user_name;
  display_name = mapped.display_name;
  application_domain = application_domain;
  request_uri = request.url;
  expire_on = none;
}

paired : Claims → Result AuthError BlocksContext → Result AuthError (Claims × BlocksContext)
paired claims (ok c) = ok (claims, c)
paired claims (err e) = err e

-- The context is set, and the claims are stashed.
abbrev recorded : Claims × BlocksContext → Exec Claims
recorded result = do
  modify (λ v. record v { context = some result.1; auth_claims = some result.0 })
  pure result.0

module _ (host : Host) (request : Request) where
  primary : String → Tenant → String → Exec Validated
  unfolding settled
  primary token tenant tenant_id = do
    r ← validate_jwt_token host token (resolve_signing_tenant host token tenant tenant_id) request
    lift (settled r)

  -- A token that the providers did not accept goes to primary validation.
  or_primary : String → Tenant → String → Option ThirdPartyValidation → Exec Validated
  or_primary token tenant tenant_id (some v) = pure (external v)
  or_primary token tenant tenant_id none = primary token tenant tenant_id

  unfoldable pub validate_authenticated_token : String → Bool → Tenant → String → Exec Validated
  unfolding unrefused or_primary primary
  validate_authenticated_token token is_third_party tenant tenant_id =
      if is_third_party
      then (do result ← validate_with_fallback host token tenant request; lift (unrefused result))
      else if tenant.is_third_party_jwt_enabled
      then (do
        result ← validate_with_fallback host token tenant request
        or_primary token tenant tenant_id result)
      else primary token tenant tenant_id

  -- The key or the tenant that the request carries; "" for neither.
  carried_tenant : String
  carried_tenant = elim (filled (header request "x-blocks-key")) [
    | some t ↦ t
    | none ↦ elim (filled (get request.query_params "x-blocks-key")) [
      | some t ↦ t
      | none ↦ text_or_empty (get request.query_params "tenant_id")
    ]
  ]

  pub requested_tenant : Option BlocksContext → String
  unfolding carried_tenant
  requested_tenant none = carried_tenant
  requested_tenant (some context) =
      if is_empty context.tenant_id then carried_tenant else context.tenant_id

  -- A subject that is no text has no `strip`; an e-mail or a name that is none fails pydantic.
  with_subject :
      Tenant
      → ThirdPartyJwtProvider
      → String
      → Mapped
      → Value
      → Value
      → Value
      → Result AuthError BlocksContext
  unfolding context_of
  with_subject tenant provider application_domain mapped (str subject) (str email) (str user_name) =
      context_of (
        create_third_party_context tenant.tenant_id subject provider.default_organization_id
          (record {
            roles = mapped.roles;
            email = email;
            user_name = user_name;
            display_name = mapped.display_name;
            application_domain = application_domain;
            request_uri = request.url;
            expire_on = none;
          }))
  with_subject tenant provider application_domain mapped (str subject) email user_name =
      err token_validation_failed
  with_subject tenant provider application_domain mapped subject email user_name =
      if is_blank tenant.tenant_id then err token_validation_failed else err unhandled

  third_party_context :
      Tenant → ThirdPartyJwtProvider → String → Option Mapped → Result AuthError BlocksContext
  unfolding with_subject
  third_party_context tenant provider application_domain none = err token_validation_failed
  third_party_context tenant provider application_domain (some m) =
      with_subject tenant provider application_domain m m.subject m.email m.user_name

  blocks_context : Result ValidationError BlocksContext → Result AuthError BlocksContext
  blocks_context (ok c) = ok c
  blocks_context (err e) = err unhandled

  -- The payload as its consumers see it, and the context built from it.
  pub identified : Tenant → String → String → Validated → Result AuthError (Claims × BlocksContext)
  unfolding third_party_context blocks_context paired
  identified tenant tenant_id application_domain (payload, none) = paired payload (
      blocks_context
        (create_from_jwt_claims host.pydantic host.datetime payload tenant_id application_domain))
  identified tenant tenant_id application_domain (payload, some provider) =
      let washed = strip_reserved_claims payload in
      paired washed (
        third_party_context tenant provider application_domain
          (map_third_party_claims host.python washed provider))

  with_tenant : String → Bool → String → String → Option Tenant → Exec Claims
  with_tenant token is_third_party application_domain tenant_id none =
      raise (http_exception 401 "Tenant not found")
  with_tenant token is_third_party application_domain tenant_id (some tenant) = do
    validated ← validate_authenticated_token token is_third_party tenant tenant_id
    result ← lift (identified tenant tenant_id application_domain validated)
    recorded result

  pub find_tenant : String → Option Tenant
  find_tenant tenant_id = if is_empty tenant_id then none else host.get_tenant tenant_id

  with_token : Extracted → Option String → Exec Claims
  unfolding with_tenant find_tenant requested_tenant
  with_token extracted none = raise (http_exception 401 "Token missing")
  with_token extracted (some token) = do
    tenant_id ← gets (λ w. requested_tenant w.context)
    with_tenant token extracted.is_third_party (text_or_empty extracted.application_domain)
        tenant_id (find_tenant tenant_id)

  unfoldable pub authenticate : Exec Claims
  unfolding with_token identified
  authenticate = do
    extracted ← gets (extract_token_from_request host request)
    with_token extracted extracted.token
