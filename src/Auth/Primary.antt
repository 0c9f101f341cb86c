-- ===== src/Auth/Primary.antt =====
-- The primary validation of blocks_genesis/_auth/auth.py: `_resolve_signing_tenant` and
-- `validate_jwt_token`.
pub mod Ambient
use blocks_genesis_py.Prelude.{
  ℕ, String, true, not, ◌&&◌, List, [], ◌∷◌, Option, none, some, is_nil, ◌==◌, if◌then◌else◌,
}
use blocks_genesis_py.Prelude.Dict.{get, insert}
use blocks_genesis_py.Prelude.Result.{Result, ok, err}
use blocks_genesis_py.Json.{str, is_truthy, is_set}
use blocks_genesis_py.Context.Claims.{Claims}
use blocks_genesis_py.Tenancy.Tenant.{Tenant, JwtTokenParameters}
use blocks_genesis_py.Auth.Host.{
  Host, Request, Exec, AuthError, http_exception, unhandled, JwtError, expired_signature,
  invalid_token, other_error, DecodeCall, public_pem,
}
use blocks_genesis_py.Auth.Exec.{◌>>=◌, pure}
use blocks_genesis_py.Auth.Certificate.{get_tenant_cert, create_certificate}

-- What primary validation raises besides an HTTP error: PyJWT's InvalidTokenError.
pub data Refusal : Type 0 where
  raised : AuthError → Refusal
  invalid : Refusal

-- The tenant that an impersonation token names as its signer, if there is one.
signer_named : Claims → String → Option String
signer_named claims tenant_id =
    if is_set (get claims "impersonated")
    then elim (get claims "original_tenant_id") [
      | some (str signer_id) ↦
          if is_truthy (str signer_id) && not (signer_id == tenant_id) then some signer_id else none
      | _ ↦ none
    ]
    else none

abbrev pub required_claims : List String
required_claims = "exp" ∷ "iat" ∷ "iss" ∷ "aud" ∷ "nbf" ∷ []

module _ (host : Host) where
  unfoldable pub resolve_signing_tenant : String → Tenant → String → Tenant
  unfolding signer_named
  resolve_signing_tenant token tenant tenant_id = elim (host.read_claims token) [
    | none ↦ tenant
    | some claims ↦ elim (signer_named claims tenant_id) [
      | none ↦ tenant
      | some signer_id ↦ elim (host.get_tenant signer_id) [ none ↦ tenant | some t ↦ t ]
    ]
  ]

  primary_call : String → String → JwtTokenParameters → DecodeCall
  primary_call token public_key parameters = record {
    token = token;
    key = public_pem public_key;
    algorithms = "RS256" ∷ [];
    issuer = some parameters.issuer;
    audience = some parameters.audiences;
    verify_iss = true;
    verify_aud = true;
    verify_iat = true;
    require = required_claims;
    leeway = 0;
  }

  enriched : Request → String → Result JwtError Claims → Result Refusal Claims
  enriched request token (ok payload) =
      ok (insert (insert payload "request_uri" (str request.url)) "oauth" (str token))
  enriched request token (err expired_signature) = err (raised (http_exception 401 "Token expired"))
  enriched request token (err invalid_token) = err invalid
  enriched request token (err other_error) = err (raised unhandled)

  decoded_with : Request → String → JwtTokenParameters → Option String → Result Refusal Claims
  unfolding enriched primary_call
  decoded_with request token parameters none =
      err (raised (http_exception 500 "Failed to load certificate"))
  decoded_with request token parameters (some public_key) =
      enriched request token (host.jwt_decode (primary_call token public_key parameters))

  with_cert : Request → String → JwtTokenParameters → Option (List ℕ) → Result Refusal Claims
  unfolding decoded_with
  with_cert request token parameters none =
      err (raised (http_exception 500 "Failed to load certificate"))
  with_cert request token parameters (some cert_bytes) =
      if is_nil cert_bytes
      then err (raised (http_exception 500 "Failed to load certificate"))
      else decoded_with request token parameters
          (create_certificate host cert_bytes (some parameters.public_certificate_password))

  validate_under :
      String → Tenant → Request → Option JwtTokenParameters → Exec (Result Refusal Claims)
  unfolding with_cert get_tenant_cert
  validate_under token tenant request none =
      pure (err (raised (http_exception 401 "Invalid tenant configuration")))
  validate_under token tenant request (some parameters) = do
    cert_bytes ← get_tenant_cert host tenant tenant.tenant_id
    pure (with_cert request token parameters cert_bytes)

  -- An InvalidTokenError is a value here, for its caller to handle.
  unfoldable pub validate_jwt_token : String → Tenant → Request → Exec (Result Refusal Claims)
  unfolding validate_under
  validate_jwt_token token tenant request =
      validate_under token tenant request tenant.jwt_token_parameters
