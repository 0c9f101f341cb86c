-- ===== src/Delegation/GrantStore/Fresh.antt =====
-- The id under which a grant is written.
use blocks_genesis_py.Prelude.{ℕ, String, Bool, true, false, ◌||◌, Option, ◌≡◌, arith}
use blocks_genesis_py.Prelude.Int.{ℤ}
use blocks_genesis_py.Prelude.Result.{Result, ok}
use blocks_genesis_py.Prelude.Text.{is_empty}
use blocks_genesis_py.Context.Record.{BlocksContext}
use blocks_genesis_py.Delegation.Flow.{Flow, Env}
use blocks_genesis_py.Delegation.Signature.{new_grant_id}
use blocks_genesis_py.Delegation.GrantStore.{
  DelegationGrantRecord, StoreError, user_record, client_record, required, stored_under, to_wire,
  lifetime_of, write, create, create_for_client,
}

-- An id that was given back is the one made of the random digits.
abbrev pub Fresh : String → Result StoreError String × Flow → Type 0
Fresh random r = (id : String) → r.0 ≡ ok id → id ≡ new_grant_id random

module _ (env : Env) (random : String) where
  stored_under-Fresh :
      (up : Bool) (entry : String × ℕ) (flow : Flow)
      → Fresh random (stored_under env up (new_grant_id random) entry flow)
  unfolding stored_under
  stored_under-Fresh false entry flow id e = cc
  stored_under-Fresh true entry flow id e = ground arith

  write-Fresh :
      (r : DelegationGrantRecord) (ttl : Option ℤ) (flow : Flow)
      → Fresh random (write env r ttl random flow)
  unfolding write
  write-Fresh r ttl flow =
      stored_under-Fresh env.cache_up (env.json_dumps (to_wire r), lifetime_of ttl) flow

  required-Fresh :
      (missing : Bool) (rest : Result StoreError String × Flow) (flow : Flow)
      → Fresh random rest
      → Fresh random (required missing rest flow)
  unfolding required
  required-Fresh true rest flow h id e = cc
  required-Fresh false rest flow h id e = h id e

  pub create-Fresh :
      (c : BlocksContext) (v s : String) (ttl : Option ℤ) (flow : Flow)
      → Fresh random (create env c v s ttl random flow)
  unfolding create
  create-Fresh c v s ttl flow =
      required-Fresh (is_empty c.tenant_id || is_empty c.user_id)
        (write env (user_record c v s) ttl random flow) flow
        (write-Fresh (user_record c v s) ttl flow)

  pub create_for_client-Fresh :
      (t k o : String) (ttl : Option ℤ) (flow : Flow)
      → Fresh random (create_for_client env t k o ttl random flow)
  unfolding create_for_client
  create_for_client-Fresh t k o ttl flow =
      required-Fresh (is_empty t || is_empty k) (write env (client_record t k o) ttl random flow)
        flow (write-Fresh (client_record t k o) ttl flow)
