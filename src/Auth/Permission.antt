-- ===== src/Auth/Permission.antt =====
-- The access checks of blocks_genesis/_auth/auth.py: `check_standard_access`, `_check_permission` and
-- `authorize`. The quota check of the source is disabled and always passes. A query is held by its
-- organization and the alternatives of its `$or`; the database counts what it matches.
pub mod Granted
use blocks_genesis_py.Prelude.{
  ℕ, zero, suc, String, Bool, true, false, not, ◌&&◌, ◌||◌, List, [], ◌∷◌, ◌++◌, Option, none, some,
  is_nil, if◌then◌else◌,
}
use blocks_genesis_py.Prelude.Text.{is_empty, is_blank, or_text}
use blocks_genesis_py.Context.Record.{BlocksContext}
use blocks_genesis_py.Auth.Host.{Host, Request, World, Exec, AuthError, http_exception}
use blocks_genesis_py.Auth.Exec.{◌>>=◌, ◌>>◌, pure, raise, gets}
use blocks_genesis_py.Auth.Authenticate.{authenticate}

pub data Condition : Type 0 where
  -- `{"Resource": {"$in": permissions}}`
  resource_in : List String → Condition
  -- `{"$and": [{"Resource": name}, {"Roles": {"$in": roles}}]}`
  resource_with_roles : String → List String → Condition

pub record Query : Type 0 where
  pub organization_id : String
  pub any_of : List Condition

-- `count_documents` on the Permissions collection of a tenant, `none` where it raises.
abbrev pub Counter : Type 0
Counter = String → Query → Option ℕ

unfoldable pub effective_tenant : Option BlocksContext → String → String
effective_tenant none tenant_id = tenant_id
effective_tenant (some bc) tenant_id =
    or_text
      (if bc.impersonated && not (is_empty bc.original_tenant_id)
        then bc.original_tenant_id
        else bc.tenant_id)
      tenant_id

unfoldable pub effective_organization : Option BlocksContext → String
effective_organization none = "default"
effective_organization (some bc) =
    if is_blank bc.organization_id then "default" else bc.organization_id

permission_conditions : List String → List Condition
permission_conditions [] = []
permission_conditions (p ∷ ps) = resource_in (p ∷ ps) ∷ []

role_conditions : String → List String → List Condition
role_conditions resource_name [] = []
role_conditions resource_name (r ∷ rs) = resource_with_roles resource_name (r ∷ rs) ∷ []

unfoldable pub permission_query : String → String → List String → List String → Query
unfolding permission_conditions role_conditions
permission_query organization resource_name roles permissions = record {
  organization_id = organization;
  any_of = permission_conditions permissions ++ role_conditions resource_name roles;
}

-- `count > 0`, where an error denies.
has_access : Option ℕ → Bool
has_access none = false
has_access (some zero) = false
has_access (some (suc n)) = true

-- The early returns of `_check_permission`.
checked : Bool → Bool → Bool → Bool
checked no_tenant nothing_held found =
    if no_tenant then false else if nothing_held then false else found

module _ (count_documents : Counter) where
  unfoldable pub check_permission :
      Option BlocksContext → String → List String → List String → String → Bool
  unfolding checked has_access effective_tenant effective_organization permission_query
  check_permission bc resource_name roles permissions tenant_id =
      checked (is_empty (effective_tenant bc tenant_id)) (is_nil roles && is_nil permissions) (
        has_access (
          count_documents (effective_tenant bc tenant_id)
            (permission_query (effective_organization bc) resource_name roles permissions)))

  -- The tenant that `check_standard_access` passes on.
  pub access_tenant : BlocksContext → String
  access_tenant context =
      if context.impersonated then context.original_tenant_id else context.tenant_id

  -- `ambient` is what `BlocksContextManager.get_context()` gives.
  unfoldable pub check_standard_access : Option BlocksContext → BlocksContext → String → Bool
  unfolding access_tenant
  check_standard_access ambient context resource_name =
      if is_empty resource_name
      then false
      else if is_empty context.tenant_id
      then false
      else check_permission ambient resource_name context.roles context.permissions
          (access_tenant context)

  decided : BlocksContext → Bool → Exec BlocksContext
  decided context true = pure context
  decided context false = raise (http_exception 403 "Insufficient permissions")

  with_context : Bool → String → Option BlocksContext → Exec BlocksContext
  unfolding decided
  with_context bypass resource_name none = raise (http_exception 401 "Missing context")
  with_context true resource_name (some context) = pure context
  with_context false resource_name (some context) = do
    ambient ← gets (λ w. w.context)
    decided context (check_standard_access ambient context resource_name)

  module _ (host : Host) (request : Request) where
    -- The dependency that `authorize` builds.
    unfoldable pub authorize_dependency : String → Bool → Exec BlocksContext
    unfolding with_context
    authorize_dependency resource_name bypass = do
      claims ← authenticate host request
      context ← gets (λ w. w.context)
      with_context bypass resource_name context

    -- `none` stands for the ValueError at the declaration of an endpoint.
    unfoldable pub authorize : Option String → Bool → Option (Exec BlocksContext)
    authorize none true = some (authorize_dependency "" true)
    authorize none false = none
    authorize (some name) true = some (authorize_dependency name true)
    authorize (some name) false =
        if is_blank name then none else some (authorize_dependency name false)
