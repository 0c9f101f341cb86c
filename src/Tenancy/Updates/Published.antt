-- ===== src/Tenancy/Updates/Published.antt =====
-- What is sent on the channel of tenant updates has the effect of the update itself.
use blocks_genesis_py.Prelude.{
  String, false, Option, none, some, ◌==◌, ◌≡◌, refl, ap, ◌∙◌, inl, inr, Bool-cases, arith,
}
use blocks_genesis_py.Prelude.Dict.{Dict}
use blocks_genesis_py.Prelude.Text.{is_empty, is_blank, strip, lower}
use blocks_genesis_py.Tenancy.Tenant.{Tenant}
use blocks_genesis_py.Tenancy.Updates.{
  TenantCacheUpdateMessage, filled, tenant_id_of, resolve_tenant_id, action_of, normalize_remove,
  normalize_upsert, normalize_cache_update, apply_normalized, handle_update, written, published,
  received,
}

filled-nonblank : (q : Option String) (id : String) → filled q ≡ some id → is_blank id ≡ false
unfolding filled
filled-nonblank none id e = cc
filled-nonblank (some s) id e = ground arith

tenant_id_of-nonblank :
    (t : Option Tenant) (id : String) → tenant_id_of t ≡ some id → is_blank id ≡ false
unfolding tenant_id_of
tenant_id_of-nonblank none id e = cc
tenant_id_of-nonblank (some t) id e = filled-nonblank (some t.tenant_id) id e

resolve_tenant_id-nonblank :
    (u : TenantCacheUpdateMessage) (id : String)
    → resolve_tenant_id u ≡ some id
    → is_blank id ≡ false
unfolding resolve_tenant_id
resolve_tenant_id-nonblank u id e =
    ground (arith, filled-nonblank u.tenant_id id, tenant_id_of-nonblank u.tenant id)

-- Normalizing changes no message that it has let through.
IsNormal : Option TenantCacheUpdateMessage → Type 0
IsNormal none = Unit
IsNormal (some n) = normalize_cache_update n ≡ some n

resolve_tenant_id_given :
    (u : TenantCacheUpdateMessage) (id : String)
    → u.tenant_id ≡ some id
    → is_blank id ≡ false
    → resolve_tenant_id u ≡ some id
unfolding resolve_tenant_id filled
resolve_tenant_id_given u id e b = ground arith

normalize_remove-IsNormal :
    (u : TenantCacheUpdateMessage) (q : Option String)
    → ((id : String) → q ≡ some id → is_blank id ≡ false)
    → IsNormal (normalize_remove u q)
unfolding IsNormal normalize_remove normalize_cache_update action_of strip lower
normalize_remove-IsNormal u none h = tt
normalize_remove-IsNormal u (some id) h =
    let n = record u { action = "remove"; tenant_id = some id } in
    ap (normalize_remove n) (resolve_tenant_id_given n id refl (h id refl))

normalize_upsert-IsNormal :
    (u : TenantCacheUpdateMessage) (q : Option Tenant)
    → u.tenant ≡ q
    → IsNormal (normalize_upsert u q)
unfolding IsNormal normalize_upsert normalize_cache_update action_of strip lower
normalize_upsert-IsNormal u none f = tt
normalize_upsert-IsNormal u (some t) f = elim (Bool-cases (is_empty t.tenant_id)) [
  | inl e ↦ rw e tt
  | inr e ↦ rw e (rw f (rw e refl))
]

normalize_cache_update-IsNormal :
    (u : TenantCacheUpdateMessage) → IsNormal (normalize_cache_update u)
unfolding normalize_cache_update IsNormal
normalize_cache_update-IsNormal u = elim (Bool-cases (action_of u == "remove")) [
  | inl a ↦ rw a (normalize_remove-IsNormal u (resolve_tenant_id u) (resolve_tenant_id-nonblank u))
  | inr a ↦ elim (Bool-cases (action_of u == "upsert")) [
    | inl b ↦ rw (a, b) (normalize_upsert-IsNormal u u.tenant refl)
    | inr b ↦ rw (a, b) tt
  ]
]

module _ (dump : TenantCacheUpdateMessage → String)
    (load : String → Option TenantCacheUpdateMessage) (cache : Dict Tenant) where
  received-written :
      (q : Option TenantCacheUpdateMessage)
      → ((n : TenantCacheUpdateMessage) → q ≡ some n → load (dump n) ≡ some n)
      → IsNormal q
      → received load (written dump q) cache ≡ apply_normalized q cache
  unfolding received written handle_update IsNormal
  received-written none read normal = refl
  received-written (some n) read normal =
      ap (λ m. handle_update m cache) (read n refl) ∙ ap (λ m. apply_normalized m cache) normal

  -- What is published for a message has, when it is received, the effect of the message itself on the
  -- cache, whether the message is valid or not, where the JSON of what it is normalized to is
  -- read back as it was written.
  pub received-published :
      (u : TenantCacheUpdateMessage)
      → ((n : TenantCacheUpdateMessage)
          → normalize_cache_update u ≡ some n
          → load (dump n) ≡ some n)
      → received load (published dump u) cache ≡ handle_update (some u) cache
  unfolding published handle_update
  received-published u read =
      received-written (normalize_cache_update u) read (normalize_cache_update-IsNormal u)
