-- ===== src/Tenancy/Service.antt =====
-- The tenant cache and its look-ups: `TenantService` of blocks_genesis/_tenant/tenant_service.py. Each
-- look-up is one step here; Loading has the callers that wait for a load.
pub mod Keyed
use blocks_genesis_py.Prelude.{
  String, Bool, true, false, ◌&&◌, ◌||◌, not, List, [], ◌∷◌, Option, none, some, map, ◌==◌,
  if◌then◌else◌,
}
use blocks_genesis_py.Prelude.Dict.{Dict, get, insert}
use blocks_genesis_py.Prelude.Text.{is_empty, is_blank, strip, lower, starts_with, drop, concat}
use blocks_genesis_py.Tenancy.Tenant.{Tenant, Application}

-- The collection of tenants: the tenant with an id, and the one with an application at one of two
-- domains; `none` where there is none, it does not fit the model, or the database raises.
pub record Database : Type 0 where
  pub find_by_id : String → Option Tenant
  pub find_by_domains : String → String → Option Tenant

remembered : Dict Tenant → Option Tenant → Option Tenant × Dict Tenant
remembered cache none = (none, cache)
remembered cache (some t) = (some t, insert cache t.tenant_id t)

unfoldable pub get_tenant : Database → String → Dict Tenant → Option Tenant × Dict Tenant
unfolding remembered
get_tenant db tenant_id cache =
    if is_empty tenant_id then (none, cache) else elim (get cache tenant_id) [
      | some t ↦ (some t, cache)
      | none ↦ remembered cache (db.find_by_id tenant_id)
    ]

without_scheme : String → String
without_scheme d =
    if starts_with d "http://" then drop 7 d else if starts_with d "https://" then drop 8 d else d

-- `normalize_domain` inside `get_tenant_by_domain`
unfoldable pub normalized_domain : String → String
unfolding without_scheme
normalized_domain d = without_scheme (lower (strip d))

-- `any(app.domain and normalize_domain(app.domain) == normalized for app in …)`
unfoldable pub has_domain : List Application → String → Bool
unfolding normalized_domain
has_domain [] normalized = false
has_domain (a ∷ applications) normalized =
    (not (is_empty a.domain) && normalized_domain a.domain == normalized)
    || has_domain applications normalized

unfoldable pub with_domain : Dict Tenant → String → Option Tenant
unfolding has_domain
with_domain [] normalized = none
with_domain ((k, t) ∷ cache) normalized =
    let rest = with_domain cache normalized in
    if has_domain t.applications normalized then some t else rest

unfoldable pub get_tenant_by_domain : Database → String → Dict Tenant → Option Tenant × Dict Tenant
unfolding with_domain normalized_domain remembered
get_tenant_by_domain db domain cache =
    let normalized = normalized_domain domain in
    if is_blank domain then (none, cache) else elim (with_domain cache normalized) [
      | some t ↦ (some t, cache)
      | none ↦
          remembered cache
            (db.find_by_domains (concat "http://" normalized) (concat "https://" normalized))
    ]

connection_of : Option Tenant → Option (String × String)
connection_of none = none
connection_of (some t) = some (t.db_name, t.db_connection_string)

-- `none` for the pair of two `None`s.
unfoldable pub get_db_connection :
    Database → String → Dict Tenant → Option (String × String) × Dict Tenant
unfolding get_tenant connection_of
get_db_connection db tenant_id cache =
    let found = get_tenant db tenant_id cache in (connection_of found.0, found.1)

unfoldable pub get_root_tenant_id : Dict Tenant → Option String
get_root_tenant_id [] = none
get_root_tenant_id ((k, t) ∷ cache) =
    let rest = get_root_tenant_id cache in if t.is_root_tenant then some t.tenant_id else rest

unfoldable pub get_tenant_database_connection_strings : Dict Tenant → Dict (String × String)
get_tenant_database_connection_strings [] = []
get_tenant_database_connection_strings ((k, t) ∷ cache) =
    (k, (t.db_name, t.db_connection_string)) ∷ get_tenant_database_connection_strings cache
