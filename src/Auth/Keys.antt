-- ===== src/Auth/Keys.antt =====
-- The key of a third-party provider in blocks_genesis/_auth/auth.py: `_decrypt_provider_secret`,
-- `_resolve_certificate_key` and `_resolve_provider_key`, without their log lines.
pub mod Ambient
pub mod Confusion
use blocks_genesis_py.Prelude.{
  ℕ, String, Bool, true, false, not, List, [], ◌∷◌, Option, none, some, is_nil, if◌then◌else◌,
}
use blocks_genesis_py.Prelude.Result.{Result, ok, err}
use blocks_genesis_py.Prelude.Text.{is_empty, concat}
use blocks_genesis_py.Crypto.{Bytes, CryptoError, decrypt}
use blocks_genesis_py.Tenancy.Tenant.{Tenant}
use blocks_genesis_py.Auth.Algorithm.{JwtSigningAlgorithm, is_symmetric, is_single_key_source}
use blocks_genesis_py.Auth.Provider.{ThirdPartyJwtProvider}
use blocks_genesis_py.Auth.Host.{
  Host, World, VerificationKey, secret, public_pem, jwk, Exec, AuthError, unhandled,
}
use blocks_genesis_py.Auth.Exec.{◌>>=◌, ◌>>◌, pure, raise, lift, gets, modify, resume}
use blocks_genesis_py.Auth.Certificate.{
  fetch_cert_bytes, create_certificate, cached_bytes, cache_bytes,
}

abbrev pub provider_certificate_cache_ttl_seconds : ℕ
provider_certificate_cache_ttl_seconds = 3600

-- The plain text that a decryption gives; an empty one counts as none.
plaintext_of : Result CryptoError (Option String) → Result AuthError (Option String)
plaintext_of (err e) = err unhandled
plaintext_of (ok none) = ok none
plaintext_of (ok (some s)) = if is_empty s then ok none else ok (some s)

is_symmetric_head : List JwtSigningAlgorithm → Bool
is_symmetric_head [] = false
is_symmetric_head (a ∷ rest) = is_symmetric a

pem_key : Option String → Option VerificationKey
pem_key none = none
pem_key (some pem) = some (public_pem pem)

secret_key : Option String → Option VerificationKey
secret_key none = none
secret_key (some s) = some (secret s)

abbrev certificate_cache_key : ThirdPartyJwtProvider → String
certificate_cache_key provider =
    concat "tpprovcert::" (concat provider.tenant_id (concat "::" provider.key))

module _ (host : Host) where
  unfoldable pub decrypt_provider_secret : Tenant → String → Exec (Option String)
  unfolding plaintext_of
  decrypt_provider_secret tenant cipher =
      if is_empty tenant.tenant_salt
      then pure none
      else lift (plaintext_of (decrypt host.crypto cipher tenant.tenant_salt))

  -- The certificate's bytes, from the cache or fetched and then cached; `[]` where they cannot be
  -- fetched.
  newly_fetched : String → Option Bytes → Exec Bytes
  unfolding cache_bytes
  newly_fetched cache_key none = pure []
  newly_fetched cache_key (some bytes) = if is_nil bytes then pure [] else do
    modify (cache_bytes host cache_key bytes provider_certificate_cache_ttl_seconds)
    pure bytes

  provider_certificate : String → String → Exec Bytes
  unfolding newly_fetched cached_bytes fetch_cert_bytes
  provider_certificate cache_key path = do
    cached ← gets (cached_bytes host cache_key)
    if not (is_nil cached)
        then pure cached
        else newly_fetched cache_key (fetch_cert_bytes host path)

  certificate_with : ThirdPartyJwtProvider → Option String → Exec (Option VerificationKey)
  unfolding provider_certificate pem_key
  certificate_with provider password = do
    certificate_data ←
        provider_certificate (certificate_cache_key provider) provider.public_certificate_path
    pure (pem_key (create_certificate host certificate_data password))

  -- An undecryptable passphrase ends the search for a key.
  after_passphrase : ThirdPartyJwtProvider → Option String → Exec (Option VerificationKey)
  unfolding certificate_with
  after_passphrase provider none = pure none
  after_passphrase provider (some password) = certificate_with provider (some password)

  unfoldable pub resolve_certificate_key :
      Tenant → ThirdPartyJwtProvider → Exec (Option VerificationKey)
  unfolding after_passphrase decrypt_provider_secret
  resolve_certificate_key tenant provider =
      if is_empty provider.public_certificate_password_cipher
      then certificate_with provider none
      else do
        password ← decrypt_provider_secret tenant provider.public_certificate_password_cipher
        after_passphrase provider password

  symmetric_key : Tenant → ThirdPartyJwtProvider → Exec (Option VerificationKey)
  unfolding secret_key decrypt_provider_secret
  symmetric_key tenant provider =
      if is_empty provider.signing_secret_cipher
      then pure none
      else do s ← decrypt_provider_secret tenant provider.signing_secret_cipher; pure (secret_key s)

  asymmetric_key : String → Tenant → ThirdPartyJwtProvider → Exec (Option VerificationKey)
  unfolding resolve_certificate_key
  asymmetric_key token tenant provider =
      if not (is_empty provider.jwks_url)
      then pure (host.jwks_key provider.jwks_url token)
      else if not (is_empty provider.public_certificate_path)
      then resolve_certificate_key tenant provider
      else pure none

  unfoldable pub resolve_provider_key :
      String → Tenant → ThirdPartyJwtProvider → Exec (Option VerificationKey)
  unfolding symmetric_key asymmetric_key is_symmetric_head
  resolve_provider_key token tenant provider =
      if not (is_single_key_source (some provider.algorithms))
      then pure none
      else if is_symmetric_head provider.algorithms
      then symmetric_key tenant provider
      else asymmetric_key token tenant provider
