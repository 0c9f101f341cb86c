-- ===== src/Middlewares/Admitted.antt =====
-- Which requests reach the application, and what they leave behind.
use blocks_genesis_py.Prelude.{String, true, false, List, none, some, ◌≡◌, refl, Elem}
use blocks_genesis_py.Prelude.Result.{Result}
use blocks_genesis_py.Prelude.Text.{is_empty}
use blocks_genesis_py.Context.Domain.{is_localhost_host}
use blocks_genesis_py.Tenancy.Tenant.{Tenant, Application}
use blocks_genesis_py.Auth.Host.{World, AuthError, Exec}
use blocks_genesis_py.Middlewares.{
  Site, HttpRequest, Response, is_included, text_or_empty, api_key, extract_domain, current_domain,
  anonymous_context, cleared, dispatch,
}

module _ (site : Site) (r : HttpRequest) where
  -- The tenant is the one of the request's key or, without a key, of its host, which is not this
  -- machine.
  pub data IsResolved (t : Tenant) : Type 0 where
    by_key :
        is_empty (api_key r.request) ≡ false
        → site.get_tenant (api_key r.request) ≡ some t
        → IsResolved t
    by_host :
        is_empty (api_key r.request) ≡ true
        → is_localhost_host site.hostname (text_or_empty r.base_host) ≡ false
        → site.get_tenant_by_domain (text_or_empty r.base_host) ≡ some t
        → IsResolved t

  -- Where the request comes from, by its origin or else its referer: these have no domain, or it is this
  -- machine's, or that of one of the tenant's applications.
  pub data HasOrigin (t : Tenant) : Type 0 where
    unnamed : is_empty (current_domain site r.request) ≡ true → HasOrigin t
    local : is_localhost_host site.hostname (current_domain site r.request) ≡ true → HasOrigin t
    of_application :
        (a : Application)
        → Elem a t.applications
        → is_empty a.domain ≡ false
        → extract_domain site a.domain ≡ current_domain site r.request
        → HasOrigin t

  pub record Admissible (t : Tenant) : Type 0 where
    pub resolved : IsResolved t
    pub enabled : t.is_disabled ≡ false
    pub origin : HasOrigin t

  -- An application that has the domain.
  abbrev Domain : String → List Application → Type 0
  Domain d applications =
      (a : Application) × Elem a applications
      × (is_empty a.domain ≡ false)
      × (extract_domain site a.domain ≡ d)

  -- The application answers in the tenant's unauthenticated context, and the context is cleared.
  abbrev pub PassedFor : Tenant → Exec Response → World → Result AuthError Response × World
  PassedFor t call_next w =
      cleared site (call_next (record w { context = some (anonymous_context site r t) }))

-- However a request to an included path ends, with a response, a rejection or an exception, no context
-- is left.
pub dispatch_clears :
    (site : Site) (r : HttpRequest) (paths : List String) (call_next : Exec Response) (w : World)
    → is_included paths r.path ≡ true
    → (dispatch site paths call_next r w).1.context ≡ none
unfolding dispatch cleared
dispatch_clears site r paths call_next w inc = rw inc refl
