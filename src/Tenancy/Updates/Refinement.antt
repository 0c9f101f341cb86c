-- ===== src/Tenancy/Updates/Refinement.antt =====
-- The update messages on the tenant cache, as point updates of a map from ids to tenants.
use blocks_genesis_py.Prelude.{
  String, true, false, List, [], ◌∷◌, Option, none, some, map, ◌==◌, if◌then◌else◌, ◌≡◌, refl, ap,
  ◌∙◌, inl, inr, Bool-cases, arith,
}
use blocks_genesis_py.Prelude.Dict.{Dict, get, get-insert, get-pop}
use blocks_genesis_py.Prelude.Text.{is_empty, is_blank, strip, lower}
use blocks_genesis_py.Tenancy.Tenant.{Tenant}
use blocks_genesis_py.Tenancy.Updates.{
  TenantCacheUpdateMessage, filled, tenant_id_of, resolve_tenant_id, action_of, normalize_remove,
  normalize_upsert, normalize_cache_update, removed, upserted, apply_update_message,
  apply_normalized, handle_update, handle_updates,
}

-- What a message asks of the map: to forget an id, to keep a tenant under its own id, or nothing.
pub data Request : Type 0 where
  forget : String → Request
  keep : Tenant → Request
  nothing : Request

-- Only an enabled tenant with an id is kept, and a disabled one is forgotten.
kept : Option Tenant → Request
kept none = nothing
kept (some t) =
    if is_empty t.tenant_id then nothing else if t.is_disabled then forget t.tenant_id else keep t

forgotten : Option String → Request
forgotten none = nothing
forgotten (some id) = forget id

asked : TenantCacheUpdateMessage → Request
unfolding action_of resolve_tenant_id kept forgotten
asked update =
    if action_of update == "remove"
    then forgotten (resolve_tenant_id update)
    else if action_of update == "upsert"
    then kept update.tenant
    else nothing

unfoldable pub request_of : Option TenantCacheUpdateMessage → Request
unfolding asked
request_of none = nothing
request_of (some update) = asked update

unfoldable pub updated : Request → (String → Option Tenant) → String → Option Tenant
updated (forget id) tenants j = if id == j then none else tenants j
updated (keep t) tenants j = if t.tenant_id == j then some t else tenants j
updated nothing tenants j = tenants j

unfoldable pub updated_all : List Request → (String → Option Tenant) → String → Option Tenant
unfolding updated
updated_all [] tenants = tenants
updated_all (r ∷ rs) tenants = updated_all rs (updated r tenants)

blank_empty : (s : String) → is_empty s ≡ true → is_blank s ≡ true
unfolding is_blank
blank_empty String.[] e = refl
blank_empty (String.◌∷◌ c s) e = cc

filled-nonempty : (q : Option String) (id : String) → filled q ≡ some id → is_empty id ≡ false
unfolding filled
filled-nonempty none id e = cc
filled-nonempty (some s) id e = ground (arith, blank_empty s)

upserted-updated :
    (t : Option Tenant) (cache : Dict Tenant) (j : String)
    → get (upserted t cache) j ≡ updated (kept t) (get cache) j
unfolding upserted kept updated
upserted-updated none cache j = refl
upserted-updated (some t) cache j =
    ground (arith, get-insert cache t.tenant_id j t, get-pop cache t.tenant_id j)

removed-updated :
    (q : Option String) (cache : Dict Tenant) (j : String)
    → ((id : String) → q ≡ some id → is_empty id ≡ false)
    → get (removed q cache) j ≡ updated (forgotten q) (get cache) j
unfolding removed forgotten updated
removed-updated none cache j h = refl
removed-updated (some id) cache j h = ground (arith, get-pop cache id j, h id refl)

tenant_id_of-nonempty :
    (t : Option Tenant) (id : String) → tenant_id_of t ≡ some id → is_empty id ≡ false
unfolding tenant_id_of
tenant_id_of-nonempty none id e = cc
tenant_id_of-nonempty (some t) id e = filled-nonempty (some t.tenant_id) id e

resolve_tenant_id-nonempty :
    (u : TenantCacheUpdateMessage) (id : String)
    → resolve_tenant_id u ≡ some id
    → is_empty id ≡ false
unfolding resolve_tenant_id
resolve_tenant_id-nonempty u id e =
    ground (arith, filled-nonempty u.tenant_id id, tenant_id_of-nonempty u.tenant id)

remove-updated :
    (u : TenantCacheUpdateMessage) (q : Option String) (cache : Dict Tenant) (j : String)
    → ((id : String) → q ≡ some id → is_empty id ≡ false)
    → get (apply_normalized (normalize_remove u q) cache) j ≡ updated (forgotten q) (get cache) j
unfolding apply_normalized normalize_remove apply_update_message action_of forgotten strip lower
    updated
remove-updated u none cache j h = refl
remove-updated u (some id) cache j h = removed-updated (some id) cache j h

upsert_upserted :
    (u : TenantCacheUpdateMessage) (q : Option Tenant) (cache : Dict Tenant)
    → u.tenant ≡ q
    → apply_normalized (normalize_upsert u q) cache ≡ upserted q cache
unfolding apply_normalized normalize_upsert apply_update_message action_of upserted strip lower
upsert_upserted u none cache e = refl
upsert_upserted u (some t) cache e = elim (Bool-cases (is_empty t.tenant_id)) [
  | inl f ↦ rw f refl
  | inr f ↦ rw f (ap (λ q. upserted q cache) e ∙ rw f refl)
]

-- A message does to the cache what it asks of the map.
handle_update-updated :
    (m : Option TenantCacheUpdateMessage) (cache : Dict Tenant) (j : String)
    → get (handle_update m cache) j ≡ updated (request_of m) (get cache) j
unfolding handle_update normalize_cache_update apply_normalized request_of asked updated
handle_update-updated none cache j = refl
handle_update-updated (some u) cache j = elim (Bool-cases (action_of u == "remove")) [
  | inl e ↦ rw e (remove-updated u (resolve_tenant_id u) cache j (resolve_tenant_id-nonempty u))
  | inr e ↦ elim (Bool-cases (action_of u == "upsert")) [
    | inl f ↦
        rw (e, f)
          (ap (λ c. get c j) (upsert_upserted u u.tenant cache refl)
            ∙ upserted-updated u.tenant cache j)
    | inr f ↦ rw (e, f) refl
  ]
]

updated-cong :
    (r : Request) (f g : String → Option Tenant) (j : String)
    → f j ≡ g j
    → updated r f j ≡ updated r g j
unfolding updated
updated-cong (forget id) f g j h = ground arith
updated-cong (keep t) f g j h = ground arith
updated-cong nothing f g j h = h

updated_all-cong :
    (rs : List Request) (f g : String → Option Tenant) (j : String)
    → f j ≡ g j
    → updated_all rs f j ≡ updated_all rs g j
unfolding updated_all
updated_all-cong [] f g j h = h
updated_all-cong (r ∷ rs) f g j h =
    updated_all-cong rs (updated r f) (updated r g) j (updated-cong r f g j h)

-- The cache after any messages, valid or not, holds for every id what the map holds after the requests
-- that they make, in their order: a removal forgets the id, an enabled tenant is kept under its own
-- id, a disabled one is forgotten, and every other message changes nothing.
pub handle_updates-updated_all :
    (ms : List (Option TenantCacheUpdateMessage)) (cache : Dict Tenant) (j : String)
    → get (handle_updates ms cache) j ≡ updated_all (map request_of ms) (get cache) j
unfolding handle_updates updated_all
handle_updates-updated_all [] cache j = refl
handle_updates-updated_all (m ∷ ms) cache j =
    handle_updates-updated_all ms (handle_update m cache) j
    ∙ updated_all-cong (map request_of ms) (get (handle_update m cache))
        (updated (request_of m) (get cache)) j (handle_update-updated m cache j)
