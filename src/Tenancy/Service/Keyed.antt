-- ===== src/Tenancy/Service/Keyed.antt =====
-- Every tenant in the cache stands under its own id.
use blocks_genesis_py.Prelude.{
  String, false, List, [], ◌∷◌, Option, none, some, ◌≡◌, refl, sym, ap, subst, ◌∙◌, inl, inr,
  eq_iff, Bool-cases, Option-cases, arith,
}
use blocks_genesis_py.Prelude.Dict.{Dict, get, get-insert, get-EveryEntry, insert-EveryEntry}
use blocks_genesis_py.Prelude.Text.{is_empty, is_blank, concat}
use blocks_genesis_py.Tenancy.Tenant.{Tenant}
use blocks_genesis_py.Tenancy.Service.{
  Database, remembered, get_tenant, normalized_domain, with_domain, get_tenant_by_domain,
}
use blocks_genesis_py.Tenancy.Updates.{TenantCacheUpdateMessage, handle_update}
use blocks_genesis_py.Tenancy.Updates.Keyed.{OwnKey, Keyed, handle_update-Keyed}

remembered-Keyed :
    (cache : Dict Tenant) (t : Option Tenant) → Keyed cache → Keyed (remembered cache t).1
unfolding remembered
remembered-Keyed cache none h = h
remembered-Keyed cache (some t) h = insert-EveryEntry OwnKey cache t.tenant_id t h refl

get_tenant-Keyed :
    (db : Database) (id : String) (cache : Dict Tenant)
    → Keyed cache
    → Keyed (get_tenant db id cache).1
unfolding get_tenant
get_tenant-Keyed db id cache h = elim (Bool-cases (is_empty id)) [
  | inl e ↦ rw e h
  | inr e ↦ elim (Option-cases (get cache id)) [
    | inl f ↦ rw (e, f) (remembered-Keyed cache (db.find_by_id id) h)
    | inr (t, f) ↦ rw (e, f) h
  ]
]

get_tenant_by_domain-Keyed :
    (db : Database) (domain : String) (cache : Dict Tenant)
    → Keyed cache
    → Keyed (get_tenant_by_domain db domain cache).1
unfolding get_tenant_by_domain
get_tenant_by_domain-Keyed db domain cache h =
    let normalized = normalized_domain domain in
    elim (Bool-cases (is_blank domain)) [
      | inl e ↦ rw e h
      | inr e ↦ elim (Option-cases (with_domain cache normalized)) [
        | inl f ↦
            rw (e, f)
              (remembered-Keyed cache
                (db.find_by_domains (concat "http://" normalized) (concat "https://" normalized)) h)
        | inr (t, f) ↦ rw (e, f) h
      ]
    ]

-- What may happen to the cache: a look-up, with the database as it stands then, or a message.
pub data Operation : Type 0 where
  by_id : Database → String → Operation
  by_domain : Database → String → Operation
  update : Option TenantCacheUpdateMessage → Operation

unfoldable pub performed : Operation → Dict Tenant → Dict Tenant
unfolding get_tenant get_tenant_by_domain handle_update
performed (by_id db id) cache = (get_tenant db id cache).1
performed (by_domain db domain) cache = (get_tenant_by_domain db domain cache).1
performed (update m) cache = handle_update m cache

unfoldable pub performed_all : List Operation → Dict Tenant → Dict Tenant
unfolding performed
performed_all [] cache = cache
performed_all (o ∷ os) cache = performed_all os (performed o cache)

-- Look-ups and messages, in whatever order and with whatever database, leave every cached tenant under
-- its own id.
pub performed_all-Keyed :
    (os : List Operation) (cache : Dict Tenant) → Keyed cache → Keyed (performed_all os cache)
unfolding performed performed_all
performed_all-Keyed [] cache h = h
performed_all-Keyed (by_id db id ∷ os) cache h =
    performed_all-Keyed os (get_tenant db id cache).1 (get_tenant-Keyed db id cache h)
performed_all-Keyed (by_domain db domain ∷ os) cache h =
    performed_all-Keyed os (get_tenant_by_domain db domain cache).1
      (get_tenant_by_domain-Keyed db domain cache h)
performed_all-Keyed (update m ∷ os) cache h =
    performed_all-Keyed os (handle_update m cache) (handle_update-Keyed m cache h)

remembered-again :
    (cache : Dict Tenant) (q : Option Tenant) (id : String) (t : Tenant)
    → ((u : Tenant) → q ≡ some u → u.tenant_id ≡ id)
    → (remembered cache q).0 ≡ some t
    → (t.tenant_id ≡ id) × (get (remembered cache q).1 id ≡ some t)
unfolding remembered
remembered-again cache none id t h e = cc
remembered-again cache (some u) id t h e = (
  ground (arith, h u refl),
  ground (arith, h u refl, get-insert cache u.tenant_id id u, eq_iff u.tenant_id id),
)

get_tenant-cached :
    (db : Database) (id : String) (cache : Dict Tenant) (t : Tenant)
    → is_empty id ≡ false
    → get cache id ≡ some t
    → get_tenant db id cache ≡ (some t, cache)
unfolding get_tenant
get_tenant-cached db id cache t e f = rw (e, f) refl

get_tenant-missed :
    (db : Database) (id : String) (cache : Dict Tenant)
    → is_empty id ≡ false
    → get cache id ≡ none
    → get_tenant db id cache ≡ remembered cache (db.find_by_id id)
unfolding get_tenant
get_tenant-missed db id cache e f = rw (e, f) refl

-- A tenant that is found by an id has that id, and is found again by it whatever the database holds by
-- then, with no change of the cache; for a cache where every tenant stands under its own id, and a
-- database that finds only tenants with the id that is asked for.
pub get_tenant-again :
    (db later : Database) (id : String) (t : Tenant) (cache : Dict Tenant)
    → Keyed cache
    → ((u : Tenant) → db.find_by_id id ≡ some u → u.tenant_id ≡ id)
    → (get_tenant db id cache).0 ≡ some t
    → (t.tenant_id ≡ id)
      × (get_tenant later id (get_tenant db id cache).1 ≡ (some t, (get_tenant db id cache).1))
unfolding get_tenant
get_tenant-again db later id t cache k h e = elim (Bool-cases (is_empty id)) [
  | inl a ↦ ground arith
  | inr a ↦ elim (Option-cases (get cache id)) [
    | inl f ↦
        let again = remembered-again cache (db.find_by_id id) id t h (rw (a, f) at e) in
        (
          again.0,
          subst (λ r. get_tenant later id r.1 ≡ (some t, r.1))
              (sym (get_tenant-missed db id cache a f))
              (get_tenant-cached later id (remembered cache (db.find_by_id id)).1 t a again.1),
        )
    | inr (u, f) ↦
        let same : u ≡ t = ground arith in
        let own = get-EveryEntry OwnKey cache id u k f in
        let found : get cache id ≡ some t = f ∙ ap (λ v. some v) same in
        (
          ap (λ (v : Tenant). v.tenant_id) (sym same) ∙ own,
          subst (λ r. get_tenant later id r.1 ≡ (some t, r.1))
              (sym (get_tenant-cached db id cache t a found))
              (get_tenant-cached later id cache t a found),
        )
  ]
]
