-- ===== src/Auth/Authenticate/Ambient.antt =====
-- A request that is refused leaves no identity behind.
use blocks_genesis_py.Prelude.{String, Bool, Option, none, some, ◌≡◌, refl, ◌∙◌, arith}
use blocks_genesis_py.Prelude.Result.{Result, ok, err}
use blocks_genesis_py.Context.Claims.{Claims}
use blocks_genesis_py.Context.Record.{BlocksContext}
use blocks_genesis_py.Tenancy.Tenant.{Tenant}
use blocks_genesis_py.Auth.Host.{Host, Request, World, Exec, AuthError}
use blocks_genesis_py.Auth.Exec.{resume, ◌>>=◌, lift}
use blocks_genesis_py.Auth.Exec.Keeps.{Keeps, SameAmbient, keeps_rules}
use blocks_genesis_py.Auth.Extraction.{Extracted, extract_token_from_request}
use blocks_genesis_py.Auth.Primary.Ambient.{validate_jwt_token-Keeps}
use blocks_genesis_py.Auth.Fallback.{ThirdPartyValidation}
use blocks_genesis_py.Auth.Fallback.Ambient.{validate_with_fallback-Keeps}
use blocks_genesis_py.Auth.Authenticate.{
  recorded, primary, or_primary, validate_authenticated_token, identified, with_tenant, with_token,
  authenticate,
}

recorded-clean :
    (r : Result AuthError (Claims × BlocksContext)) (w : World) (e : AuthError)
    → (resume (r, w) recorded).0 ≡ err e
    → SameAmbient (resume (r, w) recorded).1 w
recorded-clean (ok (p, c)) w e h = absurd (ground arith)
recorded-clean (err x) w e h = (refl, refl)

bind-clean :
    {A B : Type 0} (r : Result AuthError A × World) (k : A → Exec B) (w : World) (e : AuthError)
    → SameAmbient r.1 w
    → ((a : A) (v : World) → (k a v).0 ≡ err e → SameAmbient (k a v).1 v)
    → (resume r k).0 ≡ err e
    → SameAmbient (resume r k).1 w
bind-clean (ok a, v) k w e s h q = let (c, d) = h a v q in (c ∙ s.0, d ∙ s.1)
bind-clean (err x, v) k w e s h q = s

module _ (host : Host) (request : Request) where
  primary-Keeps :
      (token : String) (tenant : Tenant) (tenant_id : String)
      → Keeps (primary host request token tenant tenant_id)
  unfolding primary
  primary-Keeps token tenant tenant_id = search (keeps_rules, validate_jwt_token-Keeps)

  or_primary-Keeps :
      (token : String) (tenant : Tenant) (tenant_id : String) (o : Option ThirdPartyValidation)
      → Keeps (or_primary host request token tenant tenant_id o)
  unfolding or_primary
  or_primary-Keeps token tenant tenant_id none = primary-Keeps token tenant tenant_id
  or_primary-Keeps token tenant tenant_id (some v) = search keeps_rules

  validate-Keeps :
      (token : String) (is_third_party : Bool) (tenant : Tenant) (tenant_id : String)
      → Keeps (validate_authenticated_token host request token is_third_party tenant tenant_id)
  unfolding validate_authenticated_token
  validate-Keeps token is_third_party tenant tenant_id =
      search (keeps_rules, validate_with_fallback-Keeps, or_primary-Keeps, primary-Keeps)

  with_tenant-clean :
      (token : String) (is_third_party : Bool) (domain tenant_id : String) (o : Option Tenant)
      (w : World) (e : AuthError)
      → (with_tenant host request token is_third_party domain tenant_id o w).0 ≡ err e
      → SameAmbient (with_tenant host request token is_third_party domain tenant_id o w).1 w
  unfolding with_tenant
  with_tenant-clean token is_third_party domain tenant_id none w e h = (refl, refl)
  with_tenant-clean token is_third_party domain tenant_id (some tenant) w e h =
      bind-clean (validate_authenticated_token host request token is_third_party tenant tenant_id w)
        (λ validated. lift (identified host request tenant tenant_id domain validated) >>= recorded)
        w e ((validate-Keeps token is_third_party tenant tenant_id).at w)
        (λ validated v.
          recorded-clean (identified host request tenant tenant_id domain validated) v e)
        h

  with_token-clean :
      (extracted : Extracted) (token : Option String) (w : World) (e : AuthError)
      → (with_token host request extracted token w).0 ≡ err e
      → SameAmbient (with_token host request extracted token w).1 w
  unfolding with_token
  with_token-clean extracted none w e h = (refl, refl)
  with_token-clean extracted (some token) w e h = with_tenant-clean token _ _ _ _ w e h

  -- When authentication raises, the ambient context and the stashed claims are what they were.
  pub authenticate_refused :
      (w : World) (e : AuthError)
      → (authenticate host request w).0 ≡ err e
      → SameAmbient (authenticate host request w).1 w
  unfolding authenticate
  authenticate_refused w e h =
      let extracted = extract_token_from_request host request w in
      with_token-clean extracted extracted.token w e h
