-- ===== src/Auth/Permission/Granted.antt =====
-- What a granted request has shown: it was authenticated, and a permission of its organization in
-- the Permissions collection names it.
use blocks_genesis_py.Prelude.{
  ℕ, zero, suc, ◌<◌, String, Bool, true, false, List, [], ◌∷◌, ◌++◌, Option, none, some, ◌≡◌, refl,
  ap, subst, ◌↔◌, ◌⊎◌, inl, inr, Elem, arith, is_nil, ◌&&◌,
}
use blocks_genesis_py.Prelude.Text.{is_empty}
use blocks_genesis_py.Prelude.Result.{ok}
use blocks_genesis_py.Context.Record.{BlocksContext}
use blocks_genesis_py.Context.Claims.{Claims}
use blocks_genesis_py.Auth.Host.{Host, Request, World}
use blocks_genesis_py.Auth.Exec.{resume-returns}
use blocks_genesis_py.Auth.Authenticate.{authenticate}
use blocks_genesis_py.Auth.Permission.{
  Condition, resource_in, resource_with_roles, Query, Counter, effective_tenant,
  effective_organization, permission_conditions, role_conditions, permission_query, has_access,
  checked, check_permission, access_tenant, check_standard_access, decided, with_context,
  authorize_dependency,
}

-- A document of the Permissions collection.
pub record Permission : Type 0 where
  pub organization_id : String
  pub resource : String
  pub roles : List String

abbrev pub Satisfies : Permission → Condition → Type 0
Satisfies d (resource_in permissions) = Elem d.resource permissions
Satisfies d (resource_with_roles name roles) =
    (d.resource ≡ name) × ((role : String) × Elem role d.roles × Elem role roles)

abbrev pub SatisfiesAny : Permission → List Condition → Type 0
SatisfiesAny d [] = ⊥
SatisfiesAny d (c ∷ cs) = Satisfies d c ⊎ SatisfiesAny d cs

-- `count_documents` counts the documents that the query matches, as the database documents it.
abbrev pub Counts : Counter → (String → List Permission) → Type 0
Counts count stored =
    (t : String) (q : Query) (n : ℕ)
    → count t q ≡ some n
    → (0 < n) ↔ (
        (d : Permission) × Elem d (stored t)
        × (d.organization_id ≡ q.organization_id)
        × SatisfiesAny d q.any_of)

-- A document that lets a caller with these roles and permissions in.
pub record Grants (d : Permission) (organization resource_name : String)
    (roles permissions : List String) : Type 0 where
  pub same_organization : d.organization_id ≡ organization
  pub held :
      Elem d.resource permissions
      ⊎ ((d.resource ≡ resource_name) × ((role : String) × Elem role d.roles × Elem role roles))

module _ (d : Permission) (resource_name : String) where
  role_conditions_iff :
      (roles : List String)
      → SatisfiesAny d (role_conditions resource_name roles)
        ↔ ((d.resource ≡ resource_name) × ((role : String) × Elem role d.roles × Elem role roles))
  unfolding role_conditions
  role_conditions_iff [] = (λ h. absurd h, λ h. let (_, s) = h in absurd s.2)
  role_conditions_iff (r ∷ rs) = (λ h. elim h [ inl x ↦ x | inr m ↦ absurd m ], inl)

  conditions_iff :
      (roles permissions : List String)
      → SatisfiesAny d (permission_conditions permissions ++ role_conditions resource_name roles)
        ↔ (Elem d.resource permissions
            ⊎ ((d.resource ≡ resource_name)
                × ((role : String) × Elem role d.roles × Elem role roles)))
  unfolding permission_conditions
  conditions_iff roles [] =
      let (to, from) = role_conditions_iff roles in
      (λ h. inr (to h), λ h. elim h [ inl m ↦ absurd m | inr x ↦ from x ])
  conditions_iff roles (p ∷ ps) =
      let (to, from) = role_conditions_iff roles in
      (
        λ h. elim h [ inl m ↦ inl m | inr x ↦ inr (to x) ],
        λ h. elim h [ inl m ↦ inl m | inr x ↦ inr (from x) ],
      )

has_access-positive : (o : Option ℕ) → has_access o ≡ true → (n : ℕ) × (o ≡ some n) × (0 < n)
unfolding has_access
has_access-positive none h = cc
has_access-positive (some zero) h = cc
has_access-positive (some (suc n)) h = (suc n, refl, omega arith)

checked-found : (a b c : Bool) → checked a b c ≡ true → (a ≡ false) × (b ≡ false) × (c ≡ true)
unfolding checked
checked-found a b c h = ground arith

module _ (count : Counter) (stored : String → List Permission) (counts : Counts count stored) where
  found :
      (t : String) (q : Query)
      → has_access (count t q) ≡ true
      → (d : Permission) × Elem d (stored t)
        × (d.organization_id ≡ q.organization_id)
        × SatisfiesAny d q.any_of
  found t q h = let (n, e, p) = has_access-positive (count t q) h in (counts t q n e).0 p

  -- A permission check that passes, on a database that counts its documents, is answered by a
  -- document of the effective tenant and organization that grants it: its resource is one of the
  -- caller's permissions, or it is the resource asked for and one of its roles is the caller's.
  pub check_permission-Grants :
      (bc : Option BlocksContext) (resource_name : String) (roles permissions : List String)
      (tenant_id : String)
      → check_permission count bc resource_name roles permissions tenant_id ≡ true
      → (d : Permission) × Elem d (stored (effective_tenant bc tenant_id))
        × Grants d (effective_organization bc) resource_name roles permissions
  unfolding check_permission permission_query
  check_permission-Grants bc resource_name roles permissions tenant_id h =
      let (_, _, f) =
        checked-found (is_empty (effective_tenant bc tenant_id))
          (is_nil roles && is_nil permissions)
          (has_access (
            count (effective_tenant bc tenant_id)
              (permission_query (effective_organization bc) resource_name roles permissions)))
          h in
      let (d, m, o, s) =
        found (effective_tenant bc tenant_id)
          (permission_query (effective_organization bc) resource_name roles permissions) f in
      (
        d,
        m,
        record {
          same_organization = o;
          held = (conditions_iff d resource_name roles permissions).0 s;
        },
      )

  access-Grants :
      (context : BlocksContext) (resource_name : String)
      → check_standard_access count (some context) context resource_name ≡ true
      → (d : Permission) × Elem d
          (stored (effective_tenant (some context) (access_tenant count context)))
        × Grants d
            (effective_organization (some context))
            resource_name
            context.roles
            context.permissions
  unfolding check_standard_access
  access-Grants context resource_name h =
      check_permission-Grants (some context) resource_name context.roles context.permissions
        (access_tenant count context) (ground arith)

  decided-true :
      (context : BlocksContext) (b : Bool) (v : World) (c : BlocksContext) (after : World)
      → decided count context b v ≡ (ok c, after)
      → (b ≡ true) × (context ≡ c) × (v ≡ after)
  unfolding decided
  decided-true context true v c after h = ground arith
  decided-true context false v c after h = absurd (ground arith)

  -- What a request shows that passed an endpoint's checks.
  pub record Authorized (host : Host) (request : Request) (w : World) (resource_name : String)
      (context : BlocksContext) (after : World) : Type 0 where
    pub authenticated : (claims : Claims) × (authenticate host request w ≡ (ok claims, after))
    pub in_context : after.context ≡ some context
    pub granted :
        (d : Permission) × Elem d
          (stored (effective_tenant (some context) (access_tenant count context)))
        × Grants d
            (effective_organization (some context))
            resource_name
            context.roles
            context.permissions

  with_context-Granted :
      (resource_name : String) (o : Option BlocksContext) (v : World) (c : BlocksContext)
      (after : World)
      → v.context ≡ o
      → with_context count false resource_name o v ≡ (ok c, after)
      → (v ≡ after) × (o ≡ some c) × (check_standard_access count (some c) c resource_name ≡ true)
  unfolding with_context
  with_context-Granted resource_name none v c after e h = absurd (ground arith)
  with_context-Granted resource_name (some context) v c after e h =
      let (b, q, s) =
        decided-true context (check_standard_access count v.context context resource_name) v c after
          h in
      (s, ap some q, cc)

  -- A protected endpoint, on a database that counts its documents, hands a context to its handler
  -- only where the request was authenticated, this is the ambient context, and a document of the
  -- effective tenant and organization grants the context's roles or permissions.
  pub authorize_dependency-Authorized :
      (host : Host) (request : Request) (resource_name : String) (w : World) (c : BlocksContext)
      (after : World)
      → authorize_dependency count host request resource_name false w ≡ (ok c, after)
      → Authorized host request w resource_name c after
  unfolding authorize_dependency
  authorize_dependency-Authorized host request resource_name w c after h =
      let (claims, v, e, k) =
        resume-returns (authenticate host request w)
          (λ claims u. with_context count false resource_name u.context u) h in
      let (s, q, a) = with_context-Granted resource_name v.context v c after refl k in
      record {
        authenticated = (claims, subst (λ x. authenticate host request w ≡ (ok claims, x)) s e);
        in_context = subst (λ (x : World). x.context ≡ some c) s q;
        granted = access-Grants c resource_name a;
      }

-- The permissions of a caller decide without the resource: for a caller with no role, a check of any
-- two resources gives the same answer.
pub check_permission-no_roles :
    (count : Counter) (bc : Option BlocksContext) (resource_name other : String)
    (permissions : List String) (tenant_id : String)
    → check_permission count bc resource_name [] permissions tenant_id
      ≡ check_permission count bc other [] permissions tenant_id
unfolding check_permission permission_query role_conditions
check_permission-no_roles count bc resource_name other permissions tenant_id = refl

has_access-some : (o : Option ℕ) (n : ℕ) → o ≡ some n → 0 < n → has_access o ≡ true
unfolding has_access
has_access-some none n e p = cc
has_access-some (some zero) n e p = absurd (ground arith)
has_access-some (some (suc m)) n e p = refl

held_filled :
    (d : Permission) (resource_name : String) (roles permissions : List String)
    → Elem d.resource permissions
      ⊎ ((d.resource ≡ resource_name) × ((role : String) × Elem role d.roles × Elem role roles))
    → (is_nil roles && is_nil permissions) ≡ false
held_filled d name (r ∷ rs) permissions h = refl
held_filled d name [] (p ∷ ps) h = refl
held_filled d name [] [] (inl m) = absurd m
held_filled d name [] [] (inr (_, s)) = absurd s.2

-- A caller with an effective tenant passes the check whenever the database answers and a document
-- of that tenant grants it.
pub check_permission_complete :
    (count : Counter) (stored : String → List Permission) (counts : Counts count stored)
    (bc : Option BlocksContext) (resource_name : String) (roles permissions : List String)
    (tenant_id : String) (n : ℕ) (d : Permission)
    → is_empty (effective_tenant bc tenant_id) ≡ false
    → count
        (effective_tenant bc tenant_id)
        (permission_query (effective_organization bc) resource_name roles permissions)
      ≡ some n
    → Elem d (stored (effective_tenant bc tenant_id))
    → Grants d (effective_organization bc) resource_name roles permissions
    → check_permission count bc resource_name roles permissions tenant_id ≡ true
unfolding check_permission checked permission_query
check_permission_complete count stored counts bc resource_name roles permissions tenant_id n d t c m
      g =
    let q = permission_query (effective_organization bc) resource_name roles permissions in
    let p : 0 < n =
      (counts (effective_tenant bc tenant_id) q n c).1
        (d, m, g.same_organization, (conditions_iff d resource_name roles permissions).1 g.held) in
    simp (
      t,
      held_filled d resource_name roles permissions g.held,
      has_access-some (count (effective_tenant bc tenant_id) q) n c p,
    )
