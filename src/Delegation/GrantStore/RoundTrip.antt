-- ===== src/Delegation/GrantStore/RoundTrip.antt =====
-- A grant that is written can be read, until it is deleted.
use blocks_genesis_py.Prelude.{
  ℕ, zero, suc, ◌<◌, String, Bool, true, false, ◌||◌, Option, none, some, ◌≡◌, refl, arith,
}
use blocks_genesis_py.Prelude.Int.{ℤ, pos, negsuc}
use blocks_genesis_py.Prelude.Dict.{get, get-insert, get-pop}
use blocks_genesis_py.Prelude.Result.{Result, ok}
use blocks_genesis_py.Prelude.Text.{is_empty}
use blocks_genesis_py.Prelude.{eq_refl}
use blocks_genesis_py.Context.Record.{BlocksContext}
use blocks_genesis_py.Context.Fields.{str_field}
use blocks_genesis_py.Delegation.Signature.{
  grant_key, new_grant_id, is_well_formed, IsTokenHex, new_grant_id-well_formed,
}
use blocks_genesis_py.Delegation.Flow.{Flow, Env}
use blocks_genesis_py.Delegation.GrantStore.{
  DelegationGrantRecord, to_wire, aliased, read_fields, read_record, StoreError, lifetime_of,
  removed, required, create, create_for_client, user_record, client_record, stored_under, write,
  delete, of_raw, looked_up, get_grant,
}

-- The text of a record is not empty, and is read as the object that it was written from.
pub record IsJson (env : Env) : Type 0 where
  pub filled : (r : DelegationGrantRecord) → is_empty (env.json_dumps (to_wire r)) ≡ false
  pub loads_dumps :
      (r : DelegationGrantRecord) → env.json_loads (env.json_dumps (to_wire r)) ≡ some (to_wire r)

read_record-to_wire : (r : DelegationGrantRecord) → read_record (some (to_wire r)) ≡ some r
unfolding read_record to_wire read_fields aliased get str_field
read_record-to_wire r = refl

module _ (env : Env) (json : IsJson env) where
  of_raw-to_wire :
      (r : DelegationGrantRecord) (n : ℕ)
      → of_raw env (some (env.json_dumps (to_wire r), n)) ≡ some r
  unfolding of_raw
  of_raw-to_wire r n = simp (json.filled r, json.loads_dumps r, read_record-to_wire r)

  -- A grant that is written, while the cache answers, is read back under its id as the record that
  -- was written, whatever the cache held before.
  pub get_grant-write :
      (r : DelegationGrantRecord) (ttl : Option ℤ) (random : String) (flow : Flow)
      → env.cache_up ≡ true
      → IsTokenHex random
      → ((write env r ttl random flow).0 ≡ ok (new_grant_id random))
        × (get_grant env (new_grant_id random) (write env r ttl random flow).1 ≡ ok (some r))
  unfolding write stored_under get_grant looked_up
  get_grant-write r ttl random flow up hex =
      simp (up, new_grant_id-well_formed random hex, get-insert, eq_refl, of_raw-to_wire)
        (refl, refl)

  removed_gone :
      (wf up : Bool) (id : String) (flow : Flow)
      → up ≡ true
      → looked_up env wf up (of_raw env (get (removed env wf up id flow).cache (grant_key id)))
        ≡ ok none
  unfolding looked_up removed of_raw
  removed_gone false up id flow h = refl
  removed_gone true false id flow h = cc
  removed_gone true true id flow h =
      simp (get-pop flow.cache (grant_key id) (grant_key id), eq_refl)

  -- A grant that is deleted, while the cache answers, can no longer be read.
  pub get_grant-delete :
      (id : String) (flow : Flow)
      → env.cache_up ≡ true
      → get_grant env id (delete env id flow) ≡ ok none
  unfolding get_grant delete
  get_grant-delete id flow up = removed_gone (is_well_formed id) env.cache_up id flow up

-- No grant is written without an expiry: the lifetime is positive for every setting.
pub lifetime_of-positive : (ttl : Option ℤ) → 0 < lifetime_of ttl
unfolding lifetime_of
lifetime_of-positive none = omega arith
lifetime_of-positive (some (negsuc n)) = omega arith
lifetime_of-positive (some (pos zero)) = omega arith
lifetime_of-positive (some (pos (suc n))) = omega arith

required-ok :
    (b : Bool) (r : Result StoreError String × Flow) (flow : Flow) (id : String) (after : Flow)
    → required b r flow ≡ (ok id, after)
    → r ≡ (ok id, after)
unfolding required
required-ok true r flow id after h = absurd (ground arith)
required-ok false r flow id after h = h

module _ (env : Env) (ttl : Option ℤ) (random : String) (flow : Flow) (id : String)
    (after : Flow) where
  -- A grant that is created is the context's user, with the given material.
  pub create-writes :
      (context : BlocksContext) (v s : String)
      → create env context v s ttl random flow ≡ (ok id, after)
      → write env (user_record context v s) ttl random flow ≡ (ok id, after)
  unfolding create
  create-writes context v s h =
      required-ok (is_empty context.tenant_id || is_empty context.user_id)
        (write env (user_record context v s) ttl random flow) flow id after h

  -- A client grant that is created is the given client.
  pub create_for_client-writes :
      (tenant client organization : String)
      → create_for_client env tenant client organization ttl random flow ≡ (ok id, after)
      → write env (client_record tenant client organization) ttl random flow ≡ (ok id, after)
  unfolding create_for_client
  create_for_client-writes tenant client organization h =
      required-ok (is_empty tenant || is_empty client)
        (write env (client_record tenant client organization) ttl random flow) flow id after h
