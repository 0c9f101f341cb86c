-- ===== src/Auth/Tests.antt =====
-- Examples of the authentication path: a tenant with one external provider that publishes its keys.
mod Permission
use blocks_genesis_py.Prelude.{
  ℕ, String, Bool, true, false, List, [], ◌∷◌, Option, none, some, ◌≡◌, refl, Elem, ◌↔◌, ◌≤◌, ◌⊎◌,
  ◌+◌, ◌*◌, inl, inr, arith,
}
use blocks_genesis_py.Prelude.Dict.{Dict, get, insert, keep_keys}
use blocks_genesis_py.Prelude.Int.{pos}
use blocks_genesis_py.Prelude.Result.{Result, ok, err}
use blocks_genesis_py.Prelude.Text.{
  is_blank, strip, lower, starts_with, contains, drop, split, len, before, remove,
}
use blocks_genesis_py.Json.{Value, str, bool, arr, item, no_items, is_truthy}
use blocks_genesis_py.Context.Record.{BlocksContext, empty_context}
use blocks_genesis_py.Context.Fields.{Pydantic}
use blocks_genesis_py.Context.Claims.{
  Claims, Datetime, strip_reserved_claims, create_third_party_context,
}
use blocks_genesis_py.Context.Domain.{resolve_application_domain}
use blocks_genesis_py.Crypto.Tests.{toy_crypto}
use blocks_genesis_py.Tenancy.Tenant.{Tenant}
use blocks_genesis_py.Auth.Algorithm.{JwtSigningAlgorithm, rs256}
use blocks_genesis_py.Auth.ClaimsMapping.{
  Python, Mapped, map_third_party_claims, extract_roles_from_claim, texts_of, resolve_mapped_claim,
  extract_claim_value,
}
use blocks_genesis_py.Auth.Provider.{ThirdPartyClaimsMapping, ThirdPartyJwtProvider, is_configured}
use blocks_genesis_py.Auth.Host.{
  Host, Request, World, VerificationKey, secret, public_pem, jwk, http_exception,
}
use blocks_genesis_py.Auth.Extraction.{extract_token_from_request}
use blocks_genesis_py.Auth.Selector.{select, narrow, audience_matches, selected, is_selected}
use blocks_genesis_py.Auth.Keys.{resolve_provider_key}
use blocks_genesis_py.Auth.Algorithm.{
  is_single_key_source, is_symmetric, to_wire_name, to_wire_names, of_int, to_int,
}
use blocks_genesis_py.Auth.Fallback.{
  ThirdPartyValidation, validate_with_fallback, tenant_declared_on_request,
}
use blocks_genesis_py.Auth.Certificate.{cert_ttl, day}
use blocks_genesis_py.Auth.Certificate.Lifetime.{cert_ttl_bounds}
use blocks_genesis_py.Auth.Algorithm.Family.{
  of_int-to_int, IsWireNameIn, to_wire_names_iff, single_key_source-wire_names,
}
use blocks_genesis_py.Auth.ClaimsMapping.Washed.{
  extract_claim_value_of_reserved, map_user_name_of_email,
}
use blocks_genesis_py.Auth.Selector.Soundness.{Sound, select-Sound}
use blocks_genesis_py.Auth.Selector.Header.{select-outcome_iff, select-header_unread}
use blocks_genesis_py.Auth.Keys.Confusion.{PublishesKeys, resolve_provider_key_no_confusion}
use blocks_genesis_py.Auth.Exec.Keeps.{SameAmbient}
use blocks_genesis_py.Auth.Authenticate.Ambient.{authenticate_refused}
use blocks_genesis_py.Auth.Fallback.Soundness.{
  Accepted, validate_with_fallback-Accepted, validate_with_fallback_returns,
}
use blocks_genesis_py.Auth.Fallback.{read_token_routing}
use blocks_genesis_py.Auth.Authenticate.{authenticate, validate_authenticated_token}
use blocks_genesis_py.Auth.Authenticate.Identity.{
  Authenticated, IsExternal, Washed, authenticate-Authenticated, authenticate-IsExternal,
}

abbrev text_of : Value → String
text_of (str s) = s
text_of _ = "?"

abbrev as_bool : Value → Option Bool
as_bool (bool b) = some b
as_bool _ = none

abbrev pub toy_python : Python
toy_python = record { text_of = text_of; json_loads = λ s. none; text_of-str = λ s. refl }

abbrev pub toy_pydantic : Pydantic
toy_pydantic = record { as_bool = as_bool; as_datetime = λ v. none; as_bool-bool = λ b. refl }

abbrev toy_datetime : Datetime
toy_datetime = record { from_timestamp = λ v. none; from_iso = λ s. some s }

abbrev tenant : Tenant
tenant = record {
  tenant_id = "T";
  is_accept_blocks_terms = true;
  is_use_blocks_exclusively = false;
  name = none;
  db_name = "db";
  applications = [];
  is_disabled = false;
  db_connection_string = "";
  tenant_salt = "salt";
  jwt_token_parameters = none;
  third_party_jwt_token_parameters = none;
  is_third_party_jwt_enabled = true;
  is_root_tenant = false;
  environment = "";
  tenant_group_id = "";
}

abbrev pub provider : ThirdPartyJwtProvider
provider = record {
  tenant_id = "T";
  key = "p";
  provider_name = "P";
  is_active = true;
  issuer = "i";
  audiences = [];
  algorithms = rs256 ∷ [];
  jwks_url = "k";
  public_certificate_path = "";
  public_certificate_password_cipher = "";
  signing_secret_cipher = "";
  certificate_subject = "";
  certificate_thumbprint = "";
  certificate_not_after = none;
  cookie_key = "";
  default_organization_id = "default";
  claims_mapping = record {
    user_id = "sub";
    email = "";
    user_name = "";
    name = "";
    roles = "groups";
  };
}

abbrev token_claims : Claims
token_claims =
    ("iss", str "i")
    ∷ ("sub", str "u")
    ∷ ("tenant_id", str "X")
    ∷ ("groups", arr (item (str "admin") no_items))
    ∷ []

abbrev pub toy_host : Host
toy_host = record {
  python = toy_python;
  pydantic = toy_pydantic;
  datetime = toy_datetime;
  crypto = toy_crypto;
  read_claims = λ t. some token_claims;
  jwt_decode = λ call. ok token_claims;
  jwks_key = λ url t. some (jwk "k");
  http_get = λ url. none;
  read_file = λ path. none;
  load_pkcs12 = λ bytes password. none;
  load_pem = λ bytes. none;
  load_der = λ bytes. none;
  cache_up = false;
  now = 0;
  get_tenant = λ t. some tenant;
  provider_store = some (λ t. provider ∷ []);
  hostname = λ url. none;
}

abbrev pub request : Request
request = record {
  headers = ("authorization", "Bearer t") ∷ ("x-blocks-key", "T") ∷ [];
  query_params = [];
  cookies = [];
  url = "/";
}

abbrev pub world : World
world = record { context = none; auth_claims = none; cert_cache = [] }

abbrev verified : Claims
verified =
    ("iss", str "i")
    ∷ ("sub", str "u")
    ∷ ("tenant_id", str "X")
    ∷ ("groups", arr (item (str "admin") no_items))
    ∷ ("request_uri", str "/")
    ∷ []

abbrev washed : Claims
washed =
    ("iss", str "i")
    ∷ ("sub", str "u")
    ∷ ("groups", arr (item (str "admin") no_items))
    ∷ ("request_uri", str "/")
    ∷ []

abbrev caller : BlocksContext
caller = record empty_context {
  tenant_id = "T";
  roles = "admin" ∷ [];
  user_id = "u_external";
  request_uri = "/";
  organization_id = "default";
  is_authenticated = true;
  original_tenant_id = "T";
}

abbrev after : World
after = record { context = some caller; auth_claims = some washed; cert_cache = [] }

accepted_run : authenticate toy_host request world ≡ (ok washed, after)
unfolding authenticate extract_token_from_request starts_with lower get strip drop
    validate_authenticated_token validate_with_fallback tenant_declared_on_request is_truthy select
    is_blank narrow resolve_provider_key is_single_key_source map_third_party_claims is_configured
    strip_reserved_claims keep_keys insert create_third_party_context extract_roles_from_claim split
    texts_of resolve_mapped_claim resolve_application_domain
accepted_run = refl

authenticate-Authenticated_example : Authenticated toy_host request world washed after
authenticate-Authenticated_example =
    authenticate-Authenticated toy_host request world washed after accepted_run

authenticate-IsExternal_example :
    IsExternal toy_python tenant provider verified washed caller × Washed verified washed
unfolding authenticate extract_token_from_request starts_with lower get strip drop
    validate_authenticated_token validate_with_fallback tenant_declared_on_request is_truthy select
    is_blank narrow resolve_provider_key is_single_key_source map_third_party_claims is_configured
    strip_reserved_claims keep_keys insert create_third_party_context extract_roles_from_claim split
    texts_of resolve_mapped_claim resolve_application_domain
authenticate-IsExternal_example =
    authenticate-IsExternal toy_host request world washed after
      (record {
        token = "t";
        extracted = refl;
        tenant = tenant;
        found = refl;
        validated = (verified, some provider);
        between = world;
        checked = refl;
        context = caller;
        built = refl;
        acts_as = refl;
        stashed = refl;
      })
      provider refl

abbrev bare : Request
bare = record { headers = []; query_params = []; cookies = []; url = "/" }

authenticate_refused_example : SameAmbient (authenticate toy_host bare world).1 world
unfolding authenticate extract_token_from_request starts_with lower get
authenticate_refused_example =
    authenticate_refused toy_host bare world (http_exception 401 "Token missing") refl

abbrev accepted_token : ThirdPartyValidation
accepted_token = record { claims = verified; provider = provider }

validate_with_fallback-Accepted_example : Accepted toy_host "t" tenant request world accepted_token
unfolding authenticate extract_token_from_request starts_with lower get strip drop
    validate_authenticated_token validate_with_fallback tenant_declared_on_request is_truthy select
    is_blank narrow resolve_provider_key is_single_key_source map_third_party_claims is_configured
    strip_reserved_claims keep_keys insert create_third_party_context extract_roles_from_claim split
    texts_of resolve_mapped_claim resolve_application_domain
validate_with_fallback-Accepted_example =
    validate_with_fallback-Accepted toy_host "t" tenant request accepted_token world refl

toy_keys : PublishesKeys toy_host
toy_keys url token (secret s) h = cc
toy_keys url token (public_pem s) h = refl
toy_keys url token (jwk s) h = refl

resolve_provider_key_no_confusion_example :
    (a : JwtSigningAlgorithm) × (to_wire_name a ≡ "RS256") × (is_symmetric a ≡ false)
unfolding resolve_provider_key is_single_key_source to_wire_names to_wire_name is_symmetric
resolve_provider_key_no_confusion_example =
    resolve_provider_key_no_confusion toy_host "t" tenant provider world (jwk "k") "RS256" toy_keys
      refl (inl refl)

abbrev issued : Option String
issued = some "i"

abbrev unaddressed : Option (List String)
unaddressed = some []

-- Two providers of one issuer, told apart by the header.
abbrev two_providers : List ThirdPartyJwtProvider
two_providers = record provider { key = "other" } ∷ provider ∷ []

select-Sound_example : Sound two_providers issued unaddressed (some provider.key) provider
unfolding select narrow is_blank strip audience_matches
select-Sound_example =
    select-Sound two_providers issued unaddressed (some provider.key) provider refl
