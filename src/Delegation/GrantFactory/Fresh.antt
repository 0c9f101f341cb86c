-- ===== src/Delegation/GrantFactory/Fresh.antt =====
-- The id of the grant that a send attaches.
use blocks_genesis_py.Prelude.{
  String, Bool, true, false, not, ◌||◌, Option, none, some, ◌≡◌, inl, inr, Bool-cases, arith,
}
use blocks_genesis_py.Prelude.Int.{ℤ}
use blocks_genesis_py.Prelude.Result.{Result, ok, err}
use blocks_genesis_py.Prelude.Text.{is_empty}
use blocks_genesis_py.Context.Record.{BlocksContext}
use blocks_genesis_py.Delegation.Flow.{Flow, Env}
use blocks_genesis_py.Delegation.Signature.{new_grant_id}
use blocks_genesis_py.Delegation.GrantStore.{StoreError, create, create_for_client}
use blocks_genesis_py.Delegation.GrantStore.Fresh.{Fresh, create-Fresh, create_for_client-Fresh}
use blocks_genesis_py.Delegation.GrantFactory.{
  Material, Client, Sent, caught, with_material, with_client, chosen, of_user, claims_material,
  read_held_grant, client_from, client_of_claims, create_for_user, create_for_client_caller,
  for_subject, for_context, create_for_send,
}

abbrev pub FreshGrant : String → Sent → Type 0
FreshGrant random r = (id : String) → r.0 ≡ ok (some id) → id ≡ new_grant_id random

caught-FreshGrant :
    (random : String) (r : Result StoreError String × Flow)
    → Fresh random r
    → FreshGrant random (caught r)
unfolding caught
caught-FreshGrant random (ok i, flow) h id e = h id (ground arith)
caught-FreshGrant random (err x, flow) h id e = cc

module _ (env : Env) (ttl : Option ℤ) (random : String) (flow : Flow) where
  with_material-FreshGrant :
      (c : BlocksContext) (m : Result StoreError Material)
      → FreshGrant random (with_material env c ttl random flow m)
  unfolding with_material
  with_material-FreshGrant c (err x) id e = cc
  with_material-FreshGrant c (ok (v, s)) id e = elim (Bool-cases (is_empty v || is_empty s)) [
    | inl b ↦ absurd (ground arith)
    | inr b ↦
        caught-FreshGrant random (create env c v s ttl random flow)
          (create-Fresh env random c v s ttl flow) id (rw b at e)
  ]

  with_client-FreshGrant :
      (c : BlocksContext) (m : Result StoreError (Option Client))
      → FreshGrant random (with_client env c ttl random flow m)
  unfolding with_client
  with_client-FreshGrant c (err x) id e = cc
  with_client-FreshGrant c (ok none) id e = cc
  with_client-FreshGrant c (ok (some (k, o))) id e =
      caught-FreshGrant random (create_for_client env c.tenant_id k o ttl random flow)
        (create_for_client-Fresh env random c.tenant_id k o ttl flow) id e

  for_subject-FreshGrant :
      (u k : Bool) (user_grant client_grant : Sent)
      → FreshGrant random user_grant
      → FreshGrant random client_grant
      → FreshGrant random (for_subject env u k user_grant client_grant flow)
  unfolding for_subject
  for_subject-FreshGrant true k user_grant client_grant a b id e = a id e
  for_subject-FreshGrant false true user_grant client_grant a b id e = b id e
  for_subject-FreshGrant false false user_grant client_grant a b id e = cc

  for_context-FreshGrant :
      (o : Option BlocksContext) → FreshGrant random (for_context env ttl random flow o)
  unfolding for_context create_for_user create_for_client_caller
  for_context-FreshGrant none id e = cc
  for_context-FreshGrant (some c) id e =
      elim (Bool-cases (not c.is_authenticated || is_empty c.tenant_id)) [
        | inl b ↦ absurd (ground arith)
        | inr b ↦
            for_subject-FreshGrant (not (is_empty c.user_id)) (not (is_empty c.client_id))
              (create_for_user env c ttl random flow)
              (create_for_client_caller env c ttl random flow)
              (with_material-FreshGrant c (
                chosen (claims_material env flow)
                  (of_user c (read_held_grant env c.tenant_id flow))))
              (with_client-FreshGrant c (
                client_from env c (client_of_claims env flow.auth_claims)
                  (read_held_grant env c.tenant_id flow)))
              id (rw b at e)
      ]

  -- The grant that a send attaches has the id made of the random digits.
  pub create_for_send-FreshGrant : FreshGrant random (create_for_send env ttl random flow)
  unfolding create_for_send
  create_for_send-FreshGrant = for_context-FreshGrant flow.context
