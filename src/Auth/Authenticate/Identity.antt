-- ===== src/Auth/Authenticate/Identity.antt =====
-- Who a request acts as once it is authenticated.
use blocks_genesis_py.Prelude.{
  String, false, List, [], ◌∷◌, Option, none, some, ◌≡◌, ◌∙◌, sym, refl, ap, subst, arith, any,
  ◌==◌, if◌then◌else◌, Bool-cases, inl, inr,
}
use blocks_genesis_py.Prelude.Dict.{get}
use blocks_genesis_py.Context.Claims.Reserved.{get-strip_reserved_claims}
use blocks_genesis_py.Prelude.Result.{Result, ok, err}
use blocks_genesis_py.Prelude.Text.{is_blank, concat, or_text}
use blocks_genesis_py.Json.{Value, str}
use blocks_genesis_py.Context.Record.{BlocksContext}
use blocks_genesis_py.Context.Claims.{
  Claims, strip_reserved_claims, create_third_party_context, Profile, ValueError,
}
use blocks_genesis_py.Tenancy.Tenant.{Tenant}
use blocks_genesis_py.Auth.ClaimsMapping.{
  Python, Mapped, claim_or_empty, resolve_mapped_claim, extract_roles_from_claim,
  map_third_party_claims,
}
use blocks_genesis_py.Auth.Provider.{ThirdPartyJwtProvider, is_configured}
use blocks_genesis_py.Auth.Host.{Host, Request, World, Exec, AuthError}
use blocks_genesis_py.Auth.Exec.{resume-returns, ◌>>=◌, resume, lift}
use blocks_genesis_py.Auth.Extraction.{Extracted, extract_token_from_request, text_or_empty}
use blocks_genesis_py.Auth.Authenticate.{
  Validated, validate_authenticated_token, requested_tenant, paired, recorded, context_of,
  profile_of, with_subject, third_party_context, identified, with_tenant, find_tenant, with_token,
  authenticate,
}

-- What a Blocks token says of its caller, which an external provider's word never stands for.
abbrev pub trusted_claims : List String
trusted_claims =
    "tenant_id" ∷ "original_tenant_id" ∷ "user_id" ∷ "user_name" ∷ "name" ∷ "email" ∷ "permissions"
    ∷ "org_id" ∷ "impersonated" ∷ "impersonation_session_id" ∷ "client_id" ∷ "roles" ∷ []

-- The trusted claims are gone, and every other claim is what it was.
abbrev pub Washed : Claims → Claims → Type 0
Washed payload claims =
    (k : String) → get claims k ≡ (if any (λ r. r == k) trusted_claims then none else get payload k)

-- The subject, by the claim `sub` and the claims.
abbrev subject_by : Python → Claims → ThirdPartyJwtProvider → Value → Value
subject_by python claims provider sub =
    if provider.claims_mapping.user_id == "sub"
    then sub
    else str (resolve_mapped_claim python claims provider.claims_mapping.user_id)

-- The subject that a provider's configuration names: the claim `sub` of the validated payload, or the
-- claim that its UserId is mapped to, read from the washed claims.
abbrev pub external_subject : Python → Claims → Claims → ThirdPartyJwtProvider → Value
external_subject python payload claims provider =
    subject_by python claims provider (claim_or_empty (get payload "sub"))

-- The identity of a caller that an external provider vouches for. What the provider wrote decides
-- neither the tenant nor the permissions, the organization, the client or an impersonation; who the
-- caller is and which roles it has are what the provider's configuration maps them to.
pub record IsExternal (python : Python) (tenant : Tenant) (provider : ThirdPartyJwtProvider)
    (payload claims : Claims) (c : BlocksContext) : Type 0 where
  pub tenant_id : c.tenant_id ≡ tenant.tenant_id
  pub original_tenant_id : c.original_tenant_id ≡ tenant.tenant_id
  pub organization_id : c.organization_id ≡ or_text provider.default_organization_id "default"
  pub permissions : c.permissions ≡ []
  pub impersonated : c.impersonated ≡ false
  pub impersonation_session_id : c.impersonation_session_id ≡ ""
  pub client_id : c.client_id ≡ ""
  pub oauth_token : c.oauth_token ≡ ""
  pub subject : String
  pub configured : external_subject python payload claims provider ≡ str subject
  pub named : is_blank subject ≡ false
  pub user_id : c.user_id ≡ concat subject "_external"
  pub roles : c.roles ≡ extract_roles_from_claim python claims provider.claims_mapping.roles
  pub display_name :
      c.display_name ≡ resolve_mapped_claim python claims provider.claims_mapping.name

-- The part of it that the context's construction gives, for a subject and a profile.
record Vouched (tenant : Tenant) (provider : ThirdPartyJwtProvider) (subject : String)
    (roles : List String) (display_name : String) (c : BlocksContext) : Type 0 where
  tenant_id : c.tenant_id ≡ tenant.tenant_id
  original_tenant_id : c.original_tenant_id ≡ tenant.tenant_id
  organization_id : c.organization_id ≡ or_text provider.default_organization_id "default"
  permissions : c.permissions ≡ []
  impersonated : c.impersonated ≡ false
  impersonation_session_id : c.impersonation_session_id ≡ ""
  client_id : c.client_id ≡ ""
  oauth_token : c.oauth_token ≡ ""
  named : is_blank subject ≡ false
  user_id : c.user_id ≡ concat subject "_external"
  has_roles : c.roles ≡ roles
  shown_as : c.display_name ≡ display_name

third_party_lem :
    (tenant : Tenant) (provider : ThirdPartyJwtProvider) (subject : String) (profile : Profile)
    (c : BlocksContext)
    → create_third_party_context tenant.tenant_id subject provider.default_organization_id profile
      ≡ ok c
    → Vouched tenant provider subject profile.roles profile.display_name c
unfolding create_third_party_context
third_party_lem tenant provider subject profile c h = record {
  tenant_id = ground arith;
  original_tenant_id = ground arith;
  organization_id = ground arith;
  permissions = ground arith;
  impersonated = ground arith;
  impersonation_session_id = ground arith;
  client_id = ground arith;
  oauth_token = ground arith;
  named = ground arith;
  user_id = ground arith;
  has_roles = ground arith;
  shown_as = ground arith;
}

context_of-ok :
    (r : Result ValueError BlocksContext) (c : BlocksContext) → context_of r ≡ ok c → r ≡ ok c
unfolding context_of
context_of-ok (ok d) c h = cc h
context_of-ok (err e) c h = cc

paired-ok :
    (made : Claims) (r : Result AuthError BlocksContext) (claims : Claims) (c : BlocksContext)
    → paired made r ≡ ok (claims, c)
    → (claims ≡ made) × (r ≡ ok c)
unfolding paired
paired-ok made (ok d) claims c h = ground arith
paired-ok made (err e) claims c h = absurd (ground arith)

some_Mapped :
    (a m : Mapped)
    → some a ≡ some m
    → (a.subject ≡ m.subject) × (a.roles ≡ m.roles) × (a.display_name ≡ m.display_name)
some_Mapped a m h =
    let same : a ≡ m = cc in
    (ap (λ x. x.subject) same, ap (λ x. x.roles) same, ap (λ x. x.display_name) same)

module _ (host : Host) (request : Request) (tenant : Tenant) (provider : ThirdPartyJwtProvider)
    (domain : String) (c : BlocksContext) where
  with_subject-Vouched :
      (m : Mapped) (subject email user_name : Value)
      → with_subject host request tenant provider domain m subject email user_name ≡ ok c
      → (s : String) × (subject ≡ str s) × Vouched tenant provider s m.roles m.display_name c
  unfolding with_subject
  with_subject-Vouched m (str s) (str e) (str u) h = (
    s,
    refl,
    third_party_lem tenant provider s (profile_of request domain m e u) c (context_of-ok _ c h),
  )
  with_subject-Vouched m subject email user_name h = absurd (ground arith)

  third_party_context-Vouched :
      (o : Option Mapped)
      → third_party_context host request tenant provider domain o ≡ ok c
      → (m : Mapped) × (o ≡ some m)
        × ((s : String) × (m.subject ≡ str s) × Vouched tenant provider s m.roles m.display_name c)
  unfolding third_party_context
  third_party_context-Vouched none h = cc
  third_party_context-Vouched (some m) h =
      (m, refl, with_subject-Vouched m m.subject m.email m.user_name h)

  -- What the mapping gives, told by the provider's configuration.
  mapped_from :
      (claims : Claims) (m : Mapped)
      → map_third_party_claims host.python claims provider ≡ some m
      → (external_subject host.python claims claims provider ≡ m.subject)
        × (m.roles ≡ extract_roles_from_claim host.python claims provider.claims_mapping.roles)
        × (m.display_name ≡ resolve_mapped_claim host.python claims provider.claims_mapping.name)
  unfolding map_third_party_claims
  mapped_from claims m h = elim (Bool-cases (is_configured provider.claims_mapping)) [
    | inl e ↦ let (a, b, c) = some_Mapped _ m (rw e at h) in (a, sym b, sym c)
    | inr e ↦ cc (rw e at h)
  ]

  vouched-IsExternal :
      (payload claims : Claims)
      → Washed payload claims
      → third_party_context host request tenant provider domain
          (map_third_party_claims host.python claims provider)
        ≡ ok c
      → IsExternal host.python tenant provider payload claims c
  vouched-IsExternal payload claims washed made =
      let (m, mapped, (s, subject, v)) = third_party_context-Vouched _ made in
      let (external, roles, name) = mapped_from claims m mapped in
      record {
        tenant_id = v.tenant_id;
        original_tenant_id = v.original_tenant_id;
        organization_id = v.organization_id;
        permissions = v.permissions;
        impersonated = v.impersonated;
        impersonation_session_id = v.impersonation_session_id;
        client_id = v.client_id;
        oauth_token = v.oauth_token;
        subject = s;
        configured =
            ap (λ x. subject_by host.python claims provider (claim_or_empty x)) (sym (washed "sub"))
            ∙ external
            ∙ subject;
        named = v.named;
        user_id = v.user_id;
        roles = v.has_roles ∙ roles;
        display_name = v.shown_as ∙ name;
      }

  identified-IsExternal :
      (tenant_id : String) (payload claims : Claims)
      → identified host request tenant tenant_id domain (payload, some provider) ≡ ok (claims, c)
      → IsExternal host.python tenant provider payload claims c × Washed payload claims
  unfolding identified
  identified-IsExternal tenant_id payload claims h =
      let (same, made) = paired-ok (strip_reserved_claims payload) _ claims c h in
      let washed : Washed payload claims =
        subst (Washed payload) (sym same) (get-strip_reserved_claims payload) in
      (
        vouched-IsExternal payload claims washed (
            subst
              (λ x.
                third_party_context host request tenant provider domain
                  (map_third_party_claims host.python x provider)
                ≡ ok c)
              (sym same) made),
        washed,
      )

-- How a request that was authenticated got there.
pub record Authenticated (host : Host) (request : Request) (w : World) (claims : Claims)
    (after : World) : Type 0 where
  pub token : String
  pub extracted : (extract_token_from_request host request w).token ≡ some token
  pub tenant : Tenant
  pub found : find_tenant host request (requested_tenant host request w.context) ≡ some tenant
  pub validated : Validated
  pub between : World
  pub checked :
      validate_authenticated_token host request token
        (extract_token_from_request host request w).is_third_party
        tenant
        (requested_tenant host request w.context)
        w
      ≡ (ok validated, between)
  pub context : BlocksContext
  pub built :
      identified host request tenant
        (requested_tenant host request w.context)
        (text_or_empty (extract_token_from_request host request w).application_domain)
        validated
      ≡ ok (claims, context)
  pub acts_as : after.context ≡ some context
  pub stashed : after.auth_claims ≡ some claims

recorded-ends :
    (r : Result AuthError (Claims × BlocksContext)) (between : World) (claims : Claims)
    (after : World)
    → resume (r, between) recorded ≡ (ok claims, after)
    → (context : BlocksContext) × (r ≡ ok (claims, context))
      × (after.context ≡ some context)
      × (after.auth_claims ≡ some claims)
recorded-ends (ok (p, c)) between claims after h = (c, ground arith, ground arith, ground arith)
recorded-ends (err e) between claims after h = absurd (ground arith)

module _ (host : Host) (request : Request) (w : World) (claims : Claims) (after : World) where
  abbrev extraction : Extracted
  extraction = extract_token_from_request host request w

  abbrev wanted : String
  wanted = requested_tenant host request w.context

  abbrev tail_of : Tenant → Validated → Exec Claims
  tail_of tenant validated = do
    result ← lift (
        identified host request tenant wanted (text_or_empty extraction.application_domain)
          validated)
    recorded result

  tail_of-ends :
      (tenant : Tenant) (validated : Validated) (between : World)
      → tail_of tenant validated between ≡ (ok claims, after)
      → (context : BlocksContext) × (identified host request tenant wanted
            (text_or_empty extraction.application_domain)
            validated
          ≡ ok (claims, context))
        × (after.context ≡ some context)
        × (after.auth_claims ≡ some claims)
  tail_of-ends tenant validated between h =
      recorded-ends
        (identified host request tenant wanted (text_or_empty extraction.application_domain)
          validated)
        between claims after h

  with_tenant-Authenticated :
      (token : String) (o : Option Tenant)
      → extraction.token ≡ some token
      → find_tenant host request wanted ≡ o
      → with_tenant host request token extraction.is_third_party
          (text_or_empty extraction.application_domain)
          wanted
          o
          w
        ≡ (ok claims, after)
      → Authenticated host request w claims after
  unfolding with_tenant
  with_tenant-Authenticated token none e f h = absurd (ground arith)
  with_tenant-Authenticated token (some tenant) e f h =
      let (validated, between, checked, rest) =
        resume-returns
          (validate_authenticated_token host request token extraction.is_third_party tenant wanted
            w)
          (tail_of tenant) h in
      let (context, built, acts_as, stashed) = tail_of-ends tenant validated between rest in
      record {
        token = token;
        extracted = e;
        tenant = tenant;
        found = f;
        validated = validated;
        between = between;
        checked = checked;
        context = context;
        built = built;
        acts_as = acts_as;
        stashed = stashed;
      }

  with_token-Authenticated :
      (token : Option String)
      → extraction.token ≡ token
      → with_token host request extraction token w ≡ (ok claims, after)
      → Authenticated host request w claims after
  unfolding with_token
  with_token-Authenticated none e h = absurd (ground arith)
  with_token-Authenticated (some token) e h =
      with_tenant-Authenticated token (find_tenant host request wanted) e refl h

  -- A request is authenticated only with a token that it carries, for a tenant that exists, and by a
  -- validation that succeeded; the context and the claims that it leaves are those that were built
  -- from the validated payload.
  pub authenticate-Authenticated :
      authenticate host request w ≡ (ok claims, after) → Authenticated host request w claims after
  unfolding authenticate
  authenticate-Authenticated h = with_token-Authenticated extraction.token refl h

-- Where an external provider accepted the token, the caller is the subject that the provider's
-- configuration reads from the token, with the suffix _external, in the tenant of the tenant record, with
-- the provider's organization, the mapped roles and display name, and no permissions, client,
-- impersonation or token; and no claim that a Blocks token would vouch for is left.
pub authenticate-IsExternal :
    (host : Host) (request : Request) (w : World) (claims : Claims) (after : World)
    (a : Authenticated host request w claims after) (provider : ThirdPartyJwtProvider)
    → a.validated.1 ≡ some provider
    → IsExternal host.python a.tenant provider a.validated.0 claims a.context
      × Washed a.validated.0 claims
authenticate-IsExternal host request w claims after a provider e =
    identified-IsExternal host request a.tenant provider
      (text_or_empty (extract_token_from_request host request w).application_domain) a.context
      (requested_tenant host request w.context) a.validated.0 claims
      (subst
        (λ p.
          identified host request a.tenant (requested_tenant host request w.context)
            (text_or_empty (extract_token_from_request host request w).application_domain)
            (a.validated.0, p)
          ≡ ok (claims, a.context))
        e a.built)
