-- ===== src/Auth/Certificate.antt =====
-- The certificates of blocks_genesis/_auth/auth.py: `fetch_cert_bytes`, `create_certificate` and
-- `get_tenant_cert`.
pub mod Ambient
pub mod Lifetime
use blocks_genesis_py.Prelude.{
  ℕ, zero, suc, ◌+◌, ◌-◌, ◌*◌, ◌/◌, max, String, Bool, true, false, not, ◌&&◌, List, [], ◌∷◌,
  Option, none, some, is_nil, leb, if◌then◌else◌,
}
use blocks_genesis_py.Prelude.Dict.{Dict, get, insert}
use blocks_genesis_py.Prelude.Result.{Result, ok, err}
use blocks_genesis_py.Prelude.Text.{is_empty, starts_with, concat}
use blocks_genesis_py.Crypto.{Bytes}
use blocks_genesis_py.Tenancy.Tenant.{Tenant, JwtTokenParameters}
use blocks_genesis_py.Auth.Host.{Host, World, Bundle, Exec, AuthError, unhandled}
use blocks_genesis_py.Auth.Exec.{◌>>=◌, ◌>>◌, pure, raise, gets, modify, resume}

abbrev pub day : ℕ
day = 86400

-- `max(60, days_remaining * 86400)`, where `days_remaining` counts whole days, rounded down, of the
-- certificate's age; an issue date ahead of now has a negative age.
unfoldable pub cert_ttl : ℕ → ℕ → ℕ → ℕ
cert_ttl now issued valid_days =
    let days_remaining =
      if leb issued now
      then valid_days - ((now - issued) / day) - 1
      else valid_days + ((issued - now + (day - 1)) / day) - 1 in
    max 60 (days_remaining * day)

module _ (host : Host) where
  -- `none` where it raises.
  unfoldable pub fetch_cert_bytes : String → Option Bytes
  fetch_cert_bytes cert_url =
      if starts_with cert_url "http" then host.http_get cert_url else host.read_file cert_url

  bundled : Option Bundle → Option String
  bundled none = none
  bundled (some b) = elim b.cert [
    | some c ↦ some c
    | none ↦ elim b.additional_certs [ [] ↦ none | c ∷ rest ↦ some c ]
  ]

  -- `password.encode('utf-8') if password else None`
  passphrase : Option String → Option String
  passphrase none = none
  passphrase (some p) = if is_empty p then none else some p

  unfoldable pub create_certificate : Bytes → Option String → Option String
  unfolding bundled passphrase
  create_certificate certificate_data password =
      if is_nil certificate_data
      then none
      else elim (bundled (host.load_pkcs12 certificate_data (passphrase password))) [
        | some c ↦ some c
        | none ↦ elim (host.load_pem certificate_data) [
          | some c ↦ some c
          | none ↦ host.load_der certificate_data
        ]
      ]

  -- `cache_client.get_bytes_value`; a client that fails answers nothing.
  unfoldable pub cached_bytes : String → World → Bytes
  cached_bytes key w =
      if host.cache_up then elim (get w.cert_cache key) [ none ↦ [] | some (b, ttl) ↦ b ] else []

  -- `cache_client.add_bytes_value_async`; a failure is logged and dropped.
  unfoldable pub cache_bytes : String → Bytes → ℕ → World → World
  cache_bytes key bytes ttl w =
      if host.cache_up then record w { cert_cache = insert w.cert_cache key (bytes, ttl) } else w

  cache_tenant_cert : String → Bytes → JwtTokenParameters → World → World
  unfolding cache_bytes cert_ttl
  cache_tenant_cert key bytes parameters w = elim parameters.issue_date [
    | none ↦ w
    | some issued ↦
        cache_bytes key bytes
          (cert_ttl host.now issued parameters.certificate_valid_for_number_of_days) w
  ]

  fetched : String → JwtTokenParameters → Option Bytes → Exec (Option Bytes)
  unfolding cache_tenant_cert
  fetched key parameters none = raise unhandled
  fetched key parameters (some bytes) =
      if is_nil bytes
      then pure none
      else do modify (cache_tenant_cert key bytes parameters); pure (some bytes)

  cert_for : String → Option JwtTokenParameters → Exec (Option Bytes)
  unfolding fetched fetch_cert_bytes cached_bytes
  cert_for tenant_id none = pure none
  cert_for tenant_id (some parameters) = do
    let key = concat "tetocertpublic::" tenant_id
    cached ← gets (cached_bytes key)
    if not (is_nil cached)
        then pure (some cached)
        else fetched key parameters (fetch_cert_bytes parameters.public_certificate_path)

  unfoldable pub get_tenant_cert : Tenant → String → Exec (Option Bytes)
  unfolding cert_for
  get_tenant_cert tenant tenant_id = cert_for tenant_id tenant.jwt_token_parameters
