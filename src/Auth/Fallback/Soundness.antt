-- ===== src/Auth/Fallback/Soundness.antt =====
-- What an accepted third-party token has gone through.
use blocks_genesis_py.Prelude.{
  String, Bool, true, List, Option, none, some, ◌≡◌, refl, inl, inr, Option-cases, arith,
}
use blocks_genesis_py.Prelude.Dict.{insert}
use blocks_genesis_py.Prelude.Result.{Result, ok, err, Result-cases}
use blocks_genesis_py.Prelude.Text.{is_empty}
use blocks_genesis_py.Json.{str}
use blocks_genesis_py.Context.Claims.{Claims}
use blocks_genesis_py.Tenancy.Tenant.{Tenant}
use blocks_genesis_py.Auth.Provider.{ThirdPartyJwtProvider}
use blocks_genesis_py.Auth.Selector.{ThirdPartyProviderResult, select}
use blocks_genesis_py.Auth.Selector.Soundness.{Sound, select-Sound}
use blocks_genesis_py.Auth.Host.{
  Host, Request, header, World, Exec, AuthError, JwtError, VerificationKey,
}
use blocks_genesis_py.Auth.Exec.{resume-ok, pure}
use blocks_genesis_py.Auth.Keys.{resolve_provider_key}
use blocks_genesis_py.Auth.Fallback.{
  ThirdPartyValidation, Fallback, declares, tenant_declared_on_request, read_token_routing,
  third_party_call, guarded, validated, with_key, with_provider, with_selection, with_store,
  run_fallback, accepted, validate_with_fallback,
}

-- The evidence behind an accepted token: the tenant has opted in and is the one that the request
-- declares, the provider is an active one of the tenant that the selection names, and the JWT
-- library verified the token with a key resolved for that provider and under its algorithms.
pub record Accepted (host : Host) (token : String) (tenant : Tenant) (request : Request) (w : World)
    (v : ThirdPartyValidation) : Type 0 where
  pub enabled : tenant.is_third_party_jwt_enabled ≡ true
  pub declared : declares (tenant_declared_on_request request) tenant.tenant_id ≡ true
  pub get_active : String → List ThirdPartyJwtProvider
  pub store : host.provider_store ≡ some get_active
  pub issuer : String
  pub audiences : List String
  pub routed : read_token_routing host token ≡ ok (issuer, audiences)
  pub provider : ThirdPartyJwtProvider
  pub same : v.provider ≡ provider
  pub found :
      (select
        (some (get_active tenant.tenant_id))
        (some issuer)
        (some audiences)
        (header request "x-blocks-idp")).provider
      ≡ some provider
  pub chosen :
      Sound
        (get_active tenant.tenant_id)
        (some issuer)
        (some audiences)
        (header request "x-blocks-idp")
        provider
  pub key : VerificationKey
  pub resolved : (resolve_provider_key host token tenant provider w).0 ≡ ok (some key)
  pub claims : Claims
  pub verified : host.jwt_decode (third_party_call token key provider) ≡ ok claims
  pub stamped : v.claims ≡ insert claims "request_uri" (str request.url)

module _ (host : Host) (token : String) (tenant : Tenant) (request : Request)
    (v : ThirdPartyValidation) where
  validated-accepts :
      (provider : ThirdPartyJwtProvider) (r : Result JwtError Claims)
      → (validated host request provider r).0 ≡ some v
      → (claims : Claims) × (r ≡ ok claims)
        × (v.claims ≡ insert claims "request_uri" (str request.url))
        × (v.provider ≡ provider)
  unfolding validated
  validated-accepts provider (ok claims) h = (claims, refl, ground arith, ground arith)
  validated-accepts provider (err e) h = cc

  record Verified (w : World) (provider : ThirdPartyJwtProvider) : Type 0 where
    key : VerificationKey
    resolved : (resolve_provider_key host token tenant provider w).0 ≡ ok (some key)
    claims : Claims
    verified : host.jwt_decode (third_party_call token key provider) ≡ ok claims
    stamped : v.claims ≡ insert claims "request_uri" (str request.url)
    same : v.provider ≡ provider

  with_key-accepts :
      (w : World) (provider : ThirdPartyJwtProvider) (key : Option VerificationKey)
      → (resolve_provider_key host token tenant provider w).0 ≡ ok key
      → (with_key host token request provider key).0 ≡ some v
      → Verified w provider
  unfolding with_key
  with_key-accepts w provider none e h = cc
  with_key-accepts w provider (some k) e h =
      let (claims, verified, stamped, same) =
        validated-accepts provider (host.jwt_decode (third_party_call token k provider)) h in
      record {
        key = k;
        resolved = e;
        claims = claims;
        verified = verified;
        stamped = stamped;
        same = same;
      }

  with_provider-accepts :
      (w : World) (provider : ThirdPartyJwtProvider) (f : Fallback)
      → (with_provider host token tenant request provider w).0 ≡ ok f
      → f.0 ≡ some v
      → Verified w provider
  unfolding with_provider
  with_provider-accepts w provider f h e =
      let (key, resolved, made) =
        resume-ok (resolve_provider_key host token tenant provider w)
          (λ k. pure (with_key host token request provider k)) h in
      with_key-accepts w provider key resolved (ground arith)

  with_selection-accepts :
      (w : World) (selection : ThirdPartyProviderResult) (f : Fallback)
      → (with_selection host token tenant request selection w).0 ≡ ok f
      → f.0 ≡ some v
      → (provider : ThirdPartyJwtProvider) × (selection.provider ≡ some provider)
        × Verified w provider
  unfolding with_selection
  with_selection-accepts w selection f h e = elim (Option-cases selection.provider) [
    | inl missing ↦ absurd (ground arith)
    | inr (provider, found) ↦
        (provider, found, with_provider-accepts w provider f (rw found at h) e)
  ]

  -- What the checks before the selection and the selection itself establish.
  record Selected (w : World) (get_active : String → List ThirdPartyJwtProvider) : Type 0 where
    issuer : String
    audiences : List String
    routed : read_token_routing host token ≡ ok (issuer, audiences)
    provider : ThirdPartyJwtProvider
    found :
        (select
          (some (get_active tenant.tenant_id))
          (some issuer)
          (some audiences)
          (header request "x-blocks-idp")).provider
        ≡ some provider
    checked : Verified w provider

  with_store-accepts :
      (w : World) (get_active : String → List ThirdPartyJwtProvider) (f : Fallback)
      → (with_store host token tenant request (some get_active) w).0 ≡ ok f
      → f.0 ≡ some v
      → Selected w get_active
  unfolding with_store
  with_store-accepts w get_active f h e = elim (Result-cases (read_token_routing host token)) [
    | inl (routing, routed) ↦
        let (provider, found, checked) = with_selection-accepts w _ f (rw routed at h) e in
        record {
          issuer = routing.0;
          audiences = routing.1;
          routed = routed;
          provider = provider;
          found = found;
          checked = checked;
        }
    | inr (failed, raised) ↦ cc (rw raised at h)
  ]

  with_store-some :
      (w : World) (store : Option (String → List ThirdPartyJwtProvider)) (f : Fallback)
      → (with_store host token tenant request store w).0 ≡ ok f
      → f.0 ≡ some v
      → (get_active : String → List ThirdPartyJwtProvider) × (store ≡ some get_active)
        × Selected w get_active
  with_store-some w none f h e = absurd (unfold with_store in ground arith)
  with_store-some w (some get_active) f h e =
      (get_active, refl, with_store-accepts w get_active f h e)

  guarded-accepts :
      (enabled no_token declared : Bool) (rest : Exec Fallback) (w : World) (f : Fallback)
      → (guarded enabled no_token declared rest w).0 ≡ ok f
      → f.0 ≡ some v
      → (enabled ≡ true) × (declared ≡ true) × ((rest w).0 ≡ ok f)
  unfolding guarded
  guarded-accepts enabled no_token declared rest w f h e = ground arith

  record Passed (w : World) : Type 0 where
    enabled : tenant.is_third_party_jwt_enabled ≡ true
    declared : declares (tenant_declared_on_request request) tenant.tenant_id ≡ true
    get_active : String → List ThirdPartyJwtProvider
    store : host.provider_store ≡ some get_active
    chosen : Selected w get_active

  run_fallback-accepts :
      (w : World) (f : Fallback)
      → (run_fallback host token tenant request w).0 ≡ ok f
      → f.0 ≡ some v
      → Passed w
  unfolding run_fallback
  run_fallback-accepts w f h e =
      let (enabled, declared, rest) =
        guarded-accepts tenant.is_third_party_jwt_enabled (is_empty token)
          (declares (tenant_declared_on_request request) tenant.tenant_id)
          (with_store host token tenant request host.provider_store) w f h e in
      let (get_active, store, chosen) = with_store-some w host.provider_store f rest e in
      record {
        enabled = enabled;
        declared = declared;
        get_active = get_active;
        store = store;
        chosen = chosen;
      }

  Passed-Accepted : (w : World) → Passed w → Accepted host token tenant request w v
  Passed-Accepted w p =
      let c = p.chosen in
      let k = c.checked in
      record {
        enabled = p.enabled;
        declared = p.declared;
        get_active = p.get_active;
        store = p.store;
        issuer = c.issuer;
        audiences = c.audiences;
        routed = c.routed;
        provider = c.provider;
        same = k.same;
        found = c.found;
        chosen =
            select-Sound (p.get_active tenant.tenant_id) (some c.issuer) (some c.audiences)
              (header request "x-blocks-idp") c.provider c.found;
        key = k.key;
        resolved = k.resolved;
        claims = k.claims;
        verified = k.verified;
        stamped = k.stamped;
      }

  accepted-some :
      (r : Result AuthError Fallback × World)
      → (accepted r).0 ≡ ok (some v)
      → (f : Fallback) × (r.0 ≡ ok f) × (f.0 ≡ some v)
  unfolding accepted
  accepted-some (ok f, w) h = (f, refl, ground arith)
  accepted-some (err e, w) h = absurd (ground arith)

  -- A token is accepted as a third-party one only on the evidence that `Accepted` lists.
  pub validate_with_fallback-Accepted :
      (w : World)
      → (validate_with_fallback host token tenant request w).0 ≡ ok (some v)
      → Accepted host token tenant request w v
  unfolding validate_with_fallback
  validate_with_fallback-Accepted w h =
      let (f, returned, e) = accepted-some (run_fallback host token tenant request w) h in
      Passed-Accepted w (run_fallback-accepts w f returned e)

accepted_returns :
    (r : Result AuthError Fallback × World)
    → (o : Option ThirdPartyValidation) × ((accepted r).0 ≡ ok o)
unfolding accepted
accepted_returns (ok f, w) = (f.0, refl)
accepted_returns (err e, w) = (none, refl)

-- Whatever fails inside it, the third-party validation returns: no exception escapes.
pub validate_with_fallback_returns :
    (host : Host) (token : String) (tenant : Tenant) (request : Request) (w : World)
    → (o : Option ThirdPartyValidation) × ((validate_with_fallback host token tenant request w).0
        ≡ ok o)
unfolding validate_with_fallback
validate_with_fallback_returns host token tenant request w =
    accepted_returns (run_fallback host token tenant request w)
