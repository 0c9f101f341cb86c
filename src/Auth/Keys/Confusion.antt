-- ===== src/Auth/Keys/Confusion.antt =====
-- No algorithm confusion: a shared secret is handed only to the HMAC family, and a published key
-- only to the others, whatever the token says.
use blocks_genesis_py.Prelude.{
  String, Bool, true, false, List, [], ◌∷◌, Option, none, some, ◌≡◌, sym, ◌∙◌, inl, inr, Elem,
  Bool-cases, arith,
}
use blocks_genesis_py.Prelude.Result.{ok}
use blocks_genesis_py.Prelude.Text.{is_empty}
use blocks_genesis_py.Tenancy.Tenant.{Tenant}
use blocks_genesis_py.Auth.Algorithm.{
  JwtSigningAlgorithm, is_symmetric, to_wire_name, to_wire_names, is_single_key_source,
}
use blocks_genesis_py.Auth.Algorithm.Family.{single_key_source-wire_names}
use blocks_genesis_py.Auth.Provider.{ThirdPartyJwtProvider}
use blocks_genesis_py.Auth.Host.{Host, World, VerificationKey, secret}
use blocks_genesis_py.Auth.Exec.{resume-ok, pure}
use blocks_genesis_py.Auth.Certificate.{create_certificate}
use blocks_genesis_py.Auth.Keys.{
  resolve_provider_key, symmetric_key, asymmetric_key, is_symmetric_head, provider_certificate,
  certificate_cache_key, certificate_with, after_passphrase, decrypt_provider_secret,
  resolve_certificate_key, pem_key, secret_key,
}

abbrev pub is_secret : VerificationKey → Bool
is_secret (secret s) = true
is_secret _ = false

-- A JWKS never yields a shared secret.
abbrev pub PublishesKeys : Host → Type 0
PublishesKeys host =
    (url token : String) (key : VerificationKey)
    → host.jwks_key url token ≡ some key
    → is_secret key ≡ false

secret_key-secret :
    (s : Option String) (key : VerificationKey) → secret_key s ≡ some key → is_secret key ≡ true
unfolding secret_key
secret_key-secret none key h = cc
secret_key-secret (some s) key h = ground arith

pem_key-public :
    (s : Option String) (key : VerificationKey) → pem_key s ≡ some key → is_secret key ≡ false
unfolding pem_key
pem_key-public none key h = cc
pem_key-public (some s) key h = ground arith

module _ (host : Host) (publishes : PublishesKeys host) (token : String) (tenant : Tenant)
    (provider : ThirdPartyJwtProvider) (w : World) (key : VerificationKey) where
  symmetric_key-secret :
      (symmetric_key host tenant provider w).0 ≡ ok (some key) → is_secret key ≡ true
  unfolding symmetric_key
  symmetric_key-secret h = elim (Bool-cases (is_empty provider.signing_secret_cipher)) [
    | inl e ↦ cc (rw e at h)
    | inr e ↦
        let (s, _, made) =
          resume-ok (decrypt_provider_secret host tenant provider.signing_secret_cipher w) _
            (rw e at h) in
        secret_key-secret s key (ground arith)
  ]

  certificate_with-public :
      (password : Option String) (v : World)
      → (certificate_with host provider password v).0 ≡ ok (some key)
      → is_secret key ≡ false
  unfolding certificate_with
  certificate_with-public password v h =
      let (data', _, made) =
        resume-ok
          (provider_certificate host (certificate_cache_key provider)
            provider.public_certificate_path v)
          (λ x. pure (pem_key (create_certificate host x password))) h in
      pem_key-public (create_certificate host data' password) key (ground arith)

  after_passphrase-public :
      (password : Option String) (v : World)
      → (after_passphrase host provider password v).0 ≡ ok (some key)
      → is_secret key ≡ false
  unfolding after_passphrase
  after_passphrase-public none v h = cc
  after_passphrase-public (some p) v h = certificate_with-public (some p) v h

  certificate_key-public :
      (resolve_certificate_key host tenant provider w).0 ≡ ok (some key) → is_secret key ≡ false
  unfolding resolve_certificate_key
  certificate_key-public h =
      elim (Bool-cases (is_empty provider.public_certificate_password_cipher)) [
        | inl e ↦ certificate_with-public none w (rw e at h)
        | inr e ↦
            let (password, _, rest) =
              resume-ok
                (decrypt_provider_secret host tenant provider.public_certificate_password_cipher w)
                (after_passphrase host provider) (rw e at h) in
            after_passphrase-public password _ rest
      ]

  asymmetric_key-public :
      (asymmetric_key host token tenant provider w).0 ≡ ok (some key) → is_secret key ≡ false
  unfolding asymmetric_key
  asymmetric_key-public h = elim (Bool-cases (is_empty provider.jwks_url)) [
    | inl e ↦ elim (Bool-cases (is_empty provider.public_certificate_path)) [
      | inl f ↦ cc (rw (e, f) at h)
      | inr f ↦ certificate_key-public (rw (e, f) at h)
    ]
    | inr e ↦ publishes provider.jwks_url token key (ground arith)
  ]

  provider_key-family :
      (resolve_provider_key host token tenant provider w).0 ≡ ok (some key)
      → (is_single_key_source (some provider.algorithms) ≡ true)
        × (is_secret key ≡ is_symmetric_head provider.algorithms)
  unfolding resolve_provider_key
  provider_key-family h = elim (Bool-cases (is_single_key_source (some provider.algorithms))) [
    | inr e ↦ cc (rw e at h)
    | inl e ↦ elim (Bool-cases (is_symmetric_head provider.algorithms)) [
      | inl s ↦ (e, symmetric_key-secret (rw (e, s) at h) ∙ sym s)
      | inr s ↦ (e, asymmetric_key-public (rw (e, s) at h) ∙ sym s)
    ]
  ]

family_of :
    (b : Bool) (algorithms : List JwtSigningAlgorithm) (n : String)
    → is_single_key_source (some algorithms) ≡ true
    → b ≡ is_symmetric_head algorithms
    → Elem n (to_wire_names (some algorithms))
    → (a : JwtSigningAlgorithm) × (to_wire_name a ≡ n) × (is_symmetric a ≡ b)
unfolding is_single_key_source is_symmetric_head
family_of b [] n h e m = cc
family_of b (a ∷ rest) n h e m =
    let (c, named, family) = single_key_source-wire_names a rest n h m in (c, named, family ∙ sym e)

-- Whatever the token and its header say, the key that is resolved for a provider fits every
-- algorithm that validation will accept with it: a shared secret only HMAC names, a published key
-- only the names of the other families.
pub resolve_provider_key_no_confusion :
    (host : Host) (token : String) (tenant : Tenant) (provider : ThirdPartyJwtProvider) (w : World)
    (key : VerificationKey) (n : String)
    → PublishesKeys host
    → (resolve_provider_key host token tenant provider w).0 ≡ ok (some key)
    → Elem n (to_wire_names (some provider.algorithms))
    → (a : JwtSigningAlgorithm) × (to_wire_name a ≡ n) × (is_symmetric a ≡ is_secret key)
resolve_provider_key_no_confusion host token tenant provider w key n publishes h m =
    let (single, family) = provider_key-family host publishes token tenant provider w key h in
    family_of (is_secret key) provider.algorithms n single family m
