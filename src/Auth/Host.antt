-- ===== src/Auth/Host.antt =====
-- What the authentication path is given from outside the package: the JWT library, the readers of
-- certificates, the network and the disk, and the stores that it asks for a tenant and its providers.
-- A certificate is held as the PEM text of its public key, bytes as numbers, a time in seconds.
use blocks_genesis_py.Prelude.{ℕ, String, Bool, List, Option}
use blocks_genesis_py.Prelude.Dict.{Dict, get}
use blocks_genesis_py.Prelude.Result.{Result}
use blocks_genesis_py.Prelude.Text.{lower}
use blocks_genesis_py.Crypto.{Bytes, Primitives}
use blocks_genesis_py.Context.Claims.{Claims, Datetime}
use blocks_genesis_py.Context.Fields.{Pydantic}
use blocks_genesis_py.Context.Record.{BlocksContext}
use blocks_genesis_py.Tenancy.Tenant.{Tenant}
use blocks_genesis_py.Auth.ClaimsMapping.{Python}
use blocks_genesis_py.Auth.Provider.{ThirdPartyJwtProvider}

-- Header names are compared without their case, so the headers are kept under lower-case names.
pub record Request : Type 0 where
  pub headers : Dict String
  pub query_params : Dict String
  pub cookies : Dict String
  pub url : String

abbrev pub header : Request → String → Option String
header request name = get request.headers (lower name)

pub data VerificationKey : Type 0 where
  secret : String → VerificationKey
  public_pem : String → VerificationKey
  jwk : String → VerificationKey

-- The errors of `jwt.decode`: an expired token, any other InvalidTokenError, and what is neither.
pub data JwtError : Type 0 where
  expired_signature invalid_token other_error : JwtError

-- The arguments of `jwt.decode`.
pub record DecodeCall : Type 0 where
  pub token : String
  pub key : VerificationKey
  pub algorithms : List String
  pub issuer : Option String
  pub audience : Option (List String)
  pub verify_iss : Bool
  pub verify_aud : Bool
  pub verify_iat : Bool
  pub require : List String
  pub leeway : ℕ

pub record Bundle : Type 0 where
  pub cert : Option String
  pub additional_certs : List String

pub record Host : Type 0 where
  pub python : Python
  pub pydantic : Pydantic
  pub datetime : Datetime
  pub crypto : Primitives
  -- `jwt.decode(token, options={"verify_signature": False})`, `none` where it raises
  pub read_claims : String → Option Claims
  pub jwt_decode : DecodeCall → Result JwtError Claims
  -- the key of a JWKS for a token, `none` where it cannot be read
  pub jwks_key : String → String → Option VerificationKey
  -- `fetch_cert_bytes`'s two readers, `none` where they raise
  pub http_get : String → Option Bytes
  pub read_file : String → Option Bytes
  pub load_pkcs12 : Bytes → Option String → Option Bundle
  pub load_pem : Bytes → Option String
  pub load_der : Bytes → Option String
  -- whether the cache client answers
  pub cache_up : Bool
  pub now : ℕ
  -- the tenants and the active providers, as they stand while the request is handled
  pub get_tenant : String → Option Tenant
  pub provider_store : Option (String → List ThirdPartyJwtProvider)
  -- the host name that `urllib.parse` finds in a URL, `none` where it finds none or raises
  pub hostname : String → Option String

pub data AuthError : Type 0 where
  http_exception : ℕ → String → AuthError
  unhandled : AuthError

-- What a request changes: the ambient context and claims, and the cached certificates with the
-- seconds that they are cached for.
pub record World : Type 0 where
  pub context : Option BlocksContext
  pub auth_claims : Option Claims
  pub cert_cache : Dict (Bytes × ℕ)

-- A coroutine that may raise; what was written before stays written.
abbrev pub Exec {ℓ} : Type ℓ → Type ℓ
Exec A = World → Result AuthError A × World
