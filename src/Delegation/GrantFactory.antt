-- ===== src/Delegation/GrantFactory.antt =====
-- The grant that a send attaches to a message: `DelegationGrantFactory` of
-- blocks_genesis/_delegation/grant_factory.py, without its log lines. The random digits of the new id
-- are an argument.
pub mod Chained
pub mod Fresh
use blocks_genesis_py.Prelude.{
  String, Bool, true, false, not, ◌||◌, ◌&&◌, List, [], ◌∷◌, Option, none, some, ◌==◌,
  if◌then◌else◌,
}
use blocks_genesis_py.Prelude.Int.{ℤ}
use blocks_genesis_py.Prelude.Dict.{get}
use blocks_genesis_py.Prelude.Result.{Result, ok, err}
use blocks_genesis_py.Prelude.Text.{is_empty}
use blocks_genesis_py.Json.{Value, is_set, is_truthy}
use blocks_genesis_py.Context.Record.{BlocksContext}
use blocks_genesis_py.Context.Claims.{Claims}
use blocks_genesis_py.Delegation.Flow.{Flow, Env, version_material}
use blocks_genesis_py.Delegation.GrantStore.{
  DelegationGrantRecord, is_client_grant, StoreError, create, create_for_client, get_grant,
}

-- `None` and "" refuse alike.
abbrev text : Option String → String
text none = ""
text (some s) = s

abbrev pub Material : Type 0
Material = String × String

abbrev pub Held : Type 0
Held = Option DelegationGrantRecord

-- `_read_held_grant`, after the read.
of_tenant : String → Result StoreError Held → Result StoreError Held
of_tenant tenant_id (err e) = err e
of_tenant tenant_id (ok none) = ok none
of_tenant tenant_id (ok (some r)) = if r.tenant_id == tenant_id then ok (some r) else ok none

-- `_read_from_held_grant`, after the read.
of_user : BlocksContext → Result StoreError Held → Result StoreError Material
of_user context (err e) = err e
of_user context (ok none) = ok ("", "")
of_user context (ok (some r)) =
    if is_client_grant r
    then ok ("", "")
    else if not (r.user_id == context.user_id) || not (r.organization_id == context.organization_id)
    then ok ("", "")
    else ok (r.token_version, r.security_stamp)

-- The claims' material, or the held grant's where the claims have none of it.
chosen : Material → Result StoreError Material → Result StoreError Material
chosen (v, s) held = if is_empty v && is_empty s then held else ok (v, s)

-- The client and the organization that a client grant names.
abbrev pub Client : Type 0
Client = String × String

of_client : BlocksContext → Result StoreError Held → Result StoreError (Option Client)
of_client context (err e) = err e
of_client context (ok none) = ok none
of_client context (ok (some r)) =
    if not (is_client_grant r)
    then ok none
    else if not (r.client_id == context.client_id)
    then ok none
    else ok (some (r.client_id, r.organization_id))

-- `except Exception`: the message is sent without a grant.
abbrev pub Sent : Type 0
Sent = Result StoreError (Option String) × Flow

caught : Result StoreError String × Flow → Sent
caught (ok id, flow) = (ok (some id), flow)
caught (err e, flow) = (ok none, flow)

module _ (env : Env) where
  held_under : String → Option String → Flow → Result StoreError Held
  held_under tenant_id none flow = ok none
  held_under tenant_id (some held) flow =
      if is_empty held then ok none else of_tenant tenant_id (get_grant env held flow)

  unfoldable pub read_held_grant : String → Flow → Result StoreError Held
  unfolding held_under of_tenant
  read_held_grant tenant_id flow = held_under tenant_id flow.grant flow

  claims_material : Flow → Material
  claims_material flow = let (v, s) = version_material env flow.auth_claims in (text v, text s)

  with_material : BlocksContext → Option ℤ → String → Flow → Result StoreError Material → Sent
  unfolding caught
  with_material context ttl random flow (err e) = (err e, flow)
  with_material context ttl random flow (ok (v, s)) =
      if is_empty v || is_empty s
      then (ok none, flow)
      else caught (create env context v s ttl random flow)

  unfoldable pub create_for_user : BlocksContext → Option ℤ → String → Flow → Sent
  unfolding with_material chosen of_user claims_material read_held_grant
  create_for_user context ttl random flow =
      with_material context ttl random flow
        (chosen (claims_material flow) (of_user context (read_held_grant context.tenant_id flow)))

  -- The client id of the validated claims, unless they name a user.
  client_of_claims : Option Claims → Option String
  client_of_claims none = none
  client_of_claims (some claims) =
      if is_set (get claims "user_id") then none else shown_client (get claims "client_id")
    where
      shown_client : Option Value → Option String
      shown_client none = none
      shown_client (some v) = if is_truthy v then some (env.text_of v) else none

  client_from :
      BlocksContext → Option String → Result StoreError Held → Result StoreError (Option Client)
  unfolding of_client
  client_from context (some client_id) held = ok (some (client_id, context.organization_id))
  client_from context none held = of_client context held

  with_client : BlocksContext → Option ℤ → String → Flow → Result StoreError (Option Client) → Sent
  unfolding caught
  with_client context ttl random flow (err e) = (err e, flow)
  with_client context ttl random flow (ok none) = (ok none, flow)
  with_client context ttl random flow (ok (some (client_id, organization_id))) =
      caught (create_for_client env context.tenant_id client_id organization_id ttl random flow)

  unfoldable pub create_for_client_caller : BlocksContext → Option ℤ → String → Flow → Sent
  unfolding with_client client_from client_of_claims read_held_grant
  create_for_client_caller context ttl random flow = with_client context ttl random flow (
      client_from context (client_of_claims flow.auth_claims)
        (read_held_grant context.tenant_id flow))

  -- The subject decides, and the user comes before the client.
  for_subject : Bool → Bool → Sent → Sent → Flow → Sent
  for_subject true client user_grant client_grant flow = user_grant
  for_subject false true user_grant client_grant flow = client_grant
  for_subject false false user_grant client_grant flow = (ok none, flow)

  for_context : Option ℤ → String → Flow → Option BlocksContext → Sent
  unfolding for_subject
  for_context ttl random flow none = (ok none, flow)
  for_context ttl random flow (some context) =
      if not context.is_authenticated || is_empty context.tenant_id
      then (ok none, flow)
      else for_subject (not (is_empty context.user_id)) (not (is_empty context.client_id))
          (create_for_user context ttl random flow)
          (create_for_client_caller context ttl random flow) flow

  unfoldable pub create_for_send : Option ℤ → String → Flow → Sent
  unfolding for_context
  create_for_send ttl random flow = for_context ttl random flow flow.context
