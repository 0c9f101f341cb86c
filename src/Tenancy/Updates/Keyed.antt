-- ===== src/Tenancy/Updates/Keyed.antt =====
-- The update messages leave every tenant under its own id.
use blocks_genesis_py.Prelude.{String, Option, none, some, ◌==◌, ◌≡◌, refl, inl, inr, Bool-cases}
use blocks_genesis_py.Prelude.Dict.{Dict, EveryEntry, insert-EveryEntry, pop-EveryEntry}
use blocks_genesis_py.Prelude.Text.{is_empty}
use blocks_genesis_py.Tenancy.Tenant.{Tenant}
use blocks_genesis_py.Tenancy.Updates.{
  TenantCacheUpdateMessage, normalize_cache_update, action_of, removed, upserted,
  apply_update_message, apply_normalized, handle_update,
}

abbrev pub OwnKey : String → Tenant → Type 0
OwnKey k t = t.tenant_id ≡ k

abbrev pub Keyed : Dict Tenant → Type 0
Keyed cache = EveryEntry OwnKey cache

removed-Keyed : (q : Option String) (cache : Dict Tenant) → Keyed cache → Keyed (removed q cache)
unfolding removed
removed-Keyed none cache h = h
removed-Keyed (some id) cache h = elim (Bool-cases (is_empty id)) [
  | inl e ↦ rw e h
  | inr e ↦ rw e (pop-EveryEntry OwnKey cache id h)
]

upserted-Keyed : (q : Option Tenant) (cache : Dict Tenant) → Keyed cache → Keyed (upserted q cache)
unfolding upserted
upserted-Keyed none cache h = h
upserted-Keyed (some t) cache h = elim (Bool-cases (is_empty t.tenant_id)) [
  | inl e ↦ rw e h
  | inr e ↦ elim (Bool-cases t.is_disabled) [
    | inl f ↦ simp (e, f) (pop-EveryEntry OwnKey cache t.tenant_id h)
    | inr f ↦ simp (e, f) (insert-EveryEntry OwnKey cache t.tenant_id t h refl)
  ]
]

apply_normalized-Keyed :
    (q : Option TenantCacheUpdateMessage) (cache : Dict Tenant)
    → Keyed cache
    → Keyed (apply_normalized q cache)
unfolding apply_normalized apply_update_message
apply_normalized-Keyed none cache h = h
apply_normalized-Keyed (some u) cache h = elim (Bool-cases (action_of u == "remove")) [
  | inl e ↦ rw e (removed-Keyed u.tenant_id cache h)
  | inr e ↦ rw e (upserted-Keyed u.tenant cache h)
]

pub handle_update-Keyed :
    (m : Option TenantCacheUpdateMessage) (cache : Dict Tenant)
    → Keyed cache
    → Keyed (handle_update m cache)
unfolding handle_update
handle_update-Keyed none cache h = h
handle_update-Keyed (some u) cache h = apply_normalized-Keyed (normalize_cache_update u) cache h
