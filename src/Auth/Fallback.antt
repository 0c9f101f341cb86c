-- ===== src/Auth/Fallback.antt =====
-- The third-party validation of blocks_genesis/_auth/auth.py: `_read_token_routing`,
-- `_tenant_declared_on_request`, `_run_fallback` and `validate_with_fallback`, without the log lines.
pub mod Ambient
pub mod Soundness
use blocks_genesis_py.Prelude.{
  ℕ, String, Bool, true, false, not, ◌&&◌, List, [], ◌∷◌, Option, none, some, is_nil, map, ◌==◌,
  if◌then◌else◌,
}
use blocks_genesis_py.Prelude.Dict.{Dict, get, insert}
use blocks_genesis_py.Prelude.Result.{Result, ok, err}
use blocks_genesis_py.Prelude.Text.{is_empty}
use blocks_genesis_py.Json.{Value, null, bool, int, float, str, arr, obj, items, fields, is_truthy}
use blocks_genesis_py.Context.Claims.{Claims}
use blocks_genesis_py.Tenancy.Tenant.{Tenant}
use blocks_genesis_py.Auth.Algorithm.{to_wire_names}
use blocks_genesis_py.Auth.ClaimsMapping.{claim_or_empty, texts_of}
use blocks_genesis_py.Auth.Provider.{ThirdPartyJwtProvider}
use blocks_genesis_py.Auth.Selector.{
  ThirdPartyProviderSelection, selected, no_providers, ThirdPartyProviderResult, select,
}
use blocks_genesis_py.Auth.Host.{
  Host, Request, header, World, Exec, AuthError, unhandled, JwtError, VerificationKey, DecodeCall,
}
use blocks_genesis_py.Auth.Exec.{◌>>=◌, pure, lift, resume}
use blocks_genesis_py.Auth.Extraction.{filled}
use blocks_genesis_py.Auth.Keys.{resolve_provider_key}

abbrev pub third_party_leeway_seconds : ℕ
third_party_leeway_seconds = 300

pub record ThirdPartyValidation : Type 0 where
  pub claims : Claims
  pub provider : ThirdPartyJwtProvider

-- `list(aud)`: an object gives its keys, and what is no collection raises. An audience that is no
-- text equals none of a provider's.
audiences_of : Value → Result AuthError (List String)
audiences_of (str s) = if is_empty s then ok [] else ok (s ∷ [])
audiences_of (arr vs) = ok (texts_of (items vs))
audiences_of (obj fs) = ok (map (λ kv. kv.0) (fields fs))
audiences_of v = if is_truthy v then err unhandled else ok []

audience_claim : Option Value → Result AuthError (List String)
audience_claim none = ok []
audience_claim (some v) = audiences_of v

-- An issuer that is no text has no `strip`.
issuer_of : Value → Result AuthError String
issuer_of (str s) = ok s
issuer_of v = err unhandled

routed : Claims → Result AuthError (String × List String)
unfolding audience_claim audiences_of issuer_of texts_of
routed claims = elim (audience_claim (get claims "aud")) [
  | err e ↦ err e
  | ok audiences ↦ elim (issuer_of (claim_or_empty (get claims "iss"))) [
    | err e ↦ err e
    | ok issuer ↦ ok (issuer, audiences)
  ]
]

unfoldable pub tenant_declared_on_request : Request → Option String
tenant_declared_on_request request = elim (filled (header request "tenant_id")) [
  | some t ↦ some t
  | none ↦ elim (filled (header request "x-blocks-key")) [
    | some t ↦ some t
    | none ↦ elim (filled (get request.query_params "tenant_id")) [
      | some t ↦ some t
      | none ↦ filled (get request.query_params "x-blocks-key")
    ]
  ]
]

-- The request declares no tenant but the one that was loaded.
abbrev pub declares : Option String → String → Bool
declares none tenant_id = true
declares (some declared) tenant_id = declared == tenant_id

abbrev pub Fallback : Type 0
Fallback = Option ThirdPartyValidation × ThirdPartyProviderSelection

-- `provider.issuer or None`
some_text : String → Option String
some_text s = if is_empty s then none else some s

some_list : List String → Option (List String)
some_list xs = if is_nil xs then none else some xs

unfoldable pub third_party_call : String → VerificationKey → ThirdPartyJwtProvider → DecodeCall
unfolding some_text some_list
third_party_call token key provider = record {
  token = token;
  key = key;
  algorithms = to_wire_names (some provider.algorithms);
  issuer = some_text provider.issuer;
  audience = some_list provider.audiences;
  verify_iss = not (is_empty provider.issuer);
  verify_aud = not (is_nil provider.audiences);
  verify_iat = true;
  require = [];
  leeway = third_party_leeway_seconds;
}

-- The early returns of `_run_fallback`.
guarded : Bool → Bool → Bool → Exec Fallback → Exec Fallback
guarded enabled no_token declared rest =
    if not enabled
    then pure (none, no_providers)
    else if no_token
    then pure (none, no_providers)
    else if not declared
    then pure (none, no_providers)
    else rest

-- `except Exception`: nothing escapes.
accepted :
    Result AuthError Fallback × World → Result AuthError (Option ThirdPartyValidation) × World
accepted (ok f, w) = (ok f.0, w)
accepted (err e, w) = (ok none, w)

module _ (host : Host) where
  unfoldable pub read_token_routing : String → Result AuthError (String × List String)
  unfolding routed
  read_token_routing token = elim (host.read_claims token) [
    | none ↦ ok ("", [])
    | some claims ↦ routed claims
  ]

  validated : Request → ThirdPartyJwtProvider → Result JwtError Claims → Fallback
  validated request provider (err e) = (none, selected)
  validated request provider (ok claims) = (
    some (record { claims = insert claims "request_uri" (str request.url); provider = provider }),
    selected,
  )

  with_key : String → Request → ThirdPartyJwtProvider → Option VerificationKey → Fallback
  unfolding validated
  with_key token request provider none = (none, selected)
  with_key token request provider (some key) =
      validated request provider (host.jwt_decode (third_party_call token key provider))

  with_provider : String → Tenant → Request → ThirdPartyJwtProvider → Exec Fallback
  with_provider token tenant request provider = do
    key ← resolve_provider_key host token tenant provider
    pure (with_key token request provider key)

  with_choice :
      String
      → Tenant
      → Request
      → ThirdPartyProviderSelection
      → Option ThirdPartyJwtProvider
      → Exec Fallback
  with_choice token tenant request outcome none = pure (none, outcome)
  with_choice token tenant request outcome (some provider) =
      with_provider token tenant request provider

  with_selection : String → Tenant → Request → ThirdPartyProviderResult → Exec Fallback
  unfolding with_choice
  with_selection token tenant request selection =
      with_choice token tenant request selection.outcome selection.provider

  with_store :
      String → Tenant → Request → Option (String → List ThirdPartyJwtProvider) → Exec Fallback
  with_store token tenant request none = pure (none, no_providers)
  with_store token tenant request (some get_active) = do
    routing ← lift (read_token_routing token)
    with_selection token tenant request (
        select (some (get_active tenant.tenant_id)) (some routing.0) (some routing.1)
          (header request "x-blocks-idp"))

  unfoldable pub run_fallback : String → Tenant → Request → Exec Fallback
  unfolding guarded with_store with_selection with_provider with_key read_token_routing
  run_fallback token tenant request =
      guarded tenant.is_third_party_jwt_enabled (is_empty token)
        (declares (tenant_declared_on_request request) tenant.tenant_id)
        (with_store token tenant request host.provider_store)

  unfoldable pub validate_with_fallback :
      String → Tenant → Request → Exec (Option ThirdPartyValidation)
  unfolding accepted run_fallback
  validate_with_fallback token tenant request w = accepted (run_fallback token tenant request w)
