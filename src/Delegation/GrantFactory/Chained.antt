-- ===== src/Delegation/GrantFactory/Chained.antt =====
-- A send from a worker, where no claims of a validated token are in scope.
use blocks_genesis_py.Prelude.{
  String, Bool, true, false, not, ◌||◌, Option, none, some, ◌==◌, eq_iff, ◌≡◌, refl, ap, sym, subst,
  ◌∙◌, ◌⊎◌, inl, inr, arith, Bool-cases,
}
use blocks_genesis_py.Prelude.Int.{ℤ}
use blocks_genesis_py.Prelude.Result.{Result, ok, err}
use blocks_genesis_py.Prelude.Text.{is_empty, is_empty_iff}
use blocks_genesis_py.Context.Record.{BlocksContext}
use blocks_genesis_py.Delegation.Signature.{is_well_formed}
use blocks_genesis_py.Delegation.Flow.{Flow, Env, version_material}
use blocks_genesis_py.Delegation.GrantStore.{
  DelegationGrantRecord, is_client_grant, StoreError, cache_error, user_record, client_record,
  write, looked_up, create, create_for_client, get_grant,
}
use blocks_genesis_py.Delegation.GrantStore.RoundTrip.{create-writes, create_for_client-writes}
use blocks_genesis_py.Delegation.GrantFactory.{
  Material, Held, of_tenant, of_user, chosen, Client, of_client, caught, held_under,
  read_held_grant, claims_material, with_material, create_for_user, client_of_claims, client_from,
  with_client, create_for_client_caller, for_subject, for_context, create_for_send,
}

same_held :
    (q r : DelegationGrantRecord)
    → ◌≡◌ {A = Result StoreError Held} (ok (some q)) (ok (some r))
    → q ≡ r
same_held q r h = ground arith

of_tenant-some :
    (t : String) (x : Result StoreError Held) (r : DelegationGrantRecord)
    → of_tenant t x ≡ ok (some r)
    → (x ≡ ok (some r)) × (r.tenant_id ≡ t)
unfolding of_tenant
of_tenant-some t (err e) r h = cc
of_tenant-some t (ok none) r h = cc
of_tenant-some t (ok (some q)) r h = elim (Bool-cases (q.tenant_id == t)) [
  | inl e ↦
      let i = same_held q r (rw e at h) in
      (
        ap (λ x. ok (some x)) i,
        subst (λ (x : DelegationGrantRecord). x.tenant_id ≡ t) i ((eq_iff q.tenant_id t).0 e),
      )
  | inr e ↦ cc
]

-- What the held grant must be for a user.
record OfUser (context : BlocksContext) (x : Result StoreError Held) (v s : String) : Type 0 where
  pub held : DelegationGrantRecord
  pub read : x ≡ ok (some held)
  pub of_a_user : is_client_grant held ≡ false
  pub same_user : held.user_id ≡ context.user_id
  pub same_organization : held.organization_id ≡ context.organization_id
  pub version : held.token_version ≡ v
  pub stamp : held.security_stamp ≡ s

of_user-ok :
    (context : BlocksContext) (x : Result StoreError Held) (v s : String)
    → of_user context x ≡ ok (v, s)
    → is_empty v ≡ false
    → OfUser context x v s
unfolding of_user
of_user-ok context (err e) v s h f = cc
of_user-ok context (ok none) v s h f = absurd (ground (arith, is_empty_iff v))
of_user-ok context (ok (some r)) v s h f = record {
  held = r;
  read = refl;
  of_a_user = ground (arith, is_empty_iff v);
  same_user = ground (arith, eq_iff r.user_id context.user_id, is_empty_iff v);
  same_organization =
      ground (arith, eq_iff r.organization_id context.organization_id, is_empty_iff v);
  version = ground (arith, is_empty_iff v);
  stamp = ground (arith, is_empty_iff v);
}

record OfClient (context : BlocksContext) (x : Result StoreError Held)
    (client organization : String) : Type 0 where
  pub held : DelegationGrantRecord
  pub read : x ≡ ok (some held)
  pub of_a_client : is_client_grant held ≡ true
  pub same_client : held.client_id ≡ context.client_id
  pub client_id : held.client_id ≡ client
  pub organization_id : held.organization_id ≡ organization

of_client-ok :
    (context : BlocksContext) (x : Result StoreError Held) (client organization : String)
    → of_client context x ≡ ok (some (client, organization))
    → OfClient context x client organization
unfolding of_client
of_client-ok context (err e) client organization h = cc
of_client-ok context (ok none) client organization h = cc
of_client-ok context (ok (some r)) client organization h = record {
  held = r;
  read = refl;
  of_a_client = ground arith;
  same_client = ground (arith, eq_iff r.client_id context.client_id);
  client_id = ground arith;
  organization_id = ground arith;
}

caught-some :
    (r : Result StoreError String × Flow) (id : String) (after : Flow)
    → caught r ≡ (ok (some id), after)
    → r ≡ (ok id, after)
unfolding caught
caught-some (ok i, f) id after h = ground arith
caught-some (err e, f) id after h = absurd (ground arith)

module _ (env : Env) (context : BlocksContext) (ttl : Option ℤ) (random : String) (flow : Flow)
    (id : String) (after : Flow) where
  material-written :
      (m : Result StoreError Material)
      → with_material env context ttl random flow m ≡ (ok (some id), after)
      → (v : String) × (s : String) × (m ≡ ok (v, s))
        × (is_empty v ≡ false)
        × (create env context v s ttl random flow ≡ (ok id, after))
  unfolding with_material
  material-written (err e) h = absurd (ground arith)
  material-written (ok (v, s)) h = elim (Bool-cases (is_empty v || is_empty s)) [
    | inl e ↦ absurd (ground arith)
    | inr e ↦ (
      v,
      s,
      refl,
      ground arith,
      caught-some (create env context v s ttl random flow) id after (rw e at h),
    )
  ]

  client-written :
      (m : Result StoreError (Option Client))
      → with_client env context ttl random flow m ≡ (ok (some id), after)
      → (client : String) × (organization : String) × (m ≡ ok (some (client, organization)))
        × (create_for_client env context.tenant_id client organization ttl random flow
            ≡ (ok id, after))
  unfolding with_client
  client-written (err e) h = absurd (ground arith)
  client-written (ok none) h = absurd (ground arith)
  client-written (ok (some (c, o))) h = (
    c,
    o,
    refl,
    caught-some (create_for_client env context.tenant_id c o ttl random flow) id after h,
  )

  -- The held grant that a chained grant carries forward.
  pub record Chained : Type 0 where
    pub held : DelegationGrantRecord
    pub read : (h : String) × (flow.grant ≡ some h) × (get_grant env h flow ≡ ok (some held))
    pub same_tenant : held.tenant_id ≡ context.tenant_id
    pub subject :
        ((held.user_id ≡ context.user_id)
          × (held.organization_id ≡ context.organization_id)
          × (write env (user_record context held.token_version held.security_stamp) ttl random flow
              ≡ (ok id, after)))
        ⊎ ((is_client_grant held ≡ true)
            × (held.client_id ≡ context.client_id)
            × (write env
                  (client_record context.tenant_id held.client_id held.organization_id)
                  ttl
                  random
                  flow
                ≡ (ok id, after)))

  held_read :
      (tenant : String) (o : Option String) (r : DelegationGrantRecord)
      → held_under env tenant o flow ≡ ok (some r)
      → (h : String) × (o ≡ some h) × (get_grant env h flow ≡ ok (some r)) × (r.tenant_id ≡ tenant)
  unfolding held_under
  held_read tenant none r h = cc
  held_read tenant (some g) r h = elim (Bool-cases (is_empty g)) [
    | inl e ↦ absurd (ground arith)
    | inr e ↦
        let (x, t) = of_tenant-some tenant (get_grant env g flow) r (rw e at h) in (g, refl, x, t)
  ]

  from_held :
      (x : Result StoreError Material)
      → flow.auth_claims ≡ none
      → chosen (claims_material env flow) x ≡ x
  unfolding chosen claims_material version_material
  from_held x n = rw n

  user-Chained :
      flow.auth_claims ≡ none
      → create_for_user env context ttl random flow ≡ (ok (some id), after)
      → Chained
  unfolding create_for_user read_held_grant
  user-Chained n h =
      let x = of_user context (read_held_grant env context.tenant_id flow) in
      let (v, s, e, f, c) = material-written (chosen (claims_material env flow) x) h in
      let u =
        of_user-ok context (read_held_grant env context.tenant_id flow) v s
          (sym (from_held x n) ∙ e) f in
      let (g, a, b, t) = held_read context.tenant_id flow.grant u.held u.read in
      record {
        held = u.held;
        read = (g, a, b);
        same_tenant = t;
        subject = inl (
          u.same_user,
          u.same_organization,
          rw (u.version, u.stamp, create-writes env ttl random flow id after context v s c),
        );
      }

  from_held_client :
      (x : Result StoreError Held)
      → flow.auth_claims ≡ none
      → client_from env context (client_of_claims env flow.auth_claims) x ≡ of_client context x
  unfolding client_from client_of_claims
  from_held_client x n = rw n

  client-Chained :
      flow.auth_claims ≡ none
      → create_for_client_caller env context ttl random flow ≡ (ok (some id), after)
      → Chained
  unfolding create_for_client_caller read_held_grant
  client-Chained n h =
      let x = read_held_grant env context.tenant_id flow in
      let (k, o, e, c) =
        client-written (client_from env context (client_of_claims env flow.auth_claims) x) h in
      let u = of_client-ok context x k o (sym (from_held_client x n) ∙ e) in
      let (g, a, b, t) = held_read context.tenant_id flow.grant u.held u.read in
      record {
        held = u.held;
        read = (g, a, b);
        same_tenant = t;
        subject = inr (
          u.of_a_client,
          u.same_client,
          rw (
            u.client_id,
            u.organization_id,
            create_for_client-writes env ttl random flow id after context.tenant_id k o c,
          ),
        );
      }

  for_subject-Chained :
      (user client : Bool)
      → flow.auth_claims ≡ none
      → for_subject env user client
          (create_for_user env context ttl random flow)
          (create_for_client_caller env context ttl random flow)
          flow
        ≡ (ok (some id), after)
      → Chained
  unfolding for_subject
  for_subject-Chained true client n h = user-Chained n h
  for_subject-Chained false true n h = client-Chained n h
  for_subject-Chained false false n h = absurd (ground arith)

module _ (env : Env) (ttl : Option ℤ) (random : String) (flow : Flow) (id : String)
    (after : Flow) where
  for_context-Chained :
      (o : Option BlocksContext)
      → flow.auth_claims ≡ none
      → for_context env ttl random flow o ≡ (ok (some id), after)
      → (context : BlocksContext) × (o ≡ some context)
        × (context.is_authenticated ≡ true)
        × Chained env context ttl random flow id after
  unfolding for_context
  for_context-Chained none n h = absurd (ground arith)
  for_context-Chained (some context) n h =
      elim (Bool-cases (not context.is_authenticated || is_empty context.tenant_id)) [
        | inl e ↦ absurd (ground arith)
        | inr e ↦ (
          context,
          refl,
          ground arith,
          for_subject-Chained env context ttl random flow id after (not (is_empty context.user_id))
              (not (is_empty context.client_id)) n (rw e at h),
        )
      ]

  -- A send without claims in scope attaches a grant only to an authenticated context, and carries
  -- forward the grant that is held: it is of the context's tenant, and either names the context's
  -- user and organization and lends its version material, or is a client grant of the context's
  -- client. The new record is written under the id that is attached.
  pub create_for_send_chained :
      flow.auth_claims ≡ none
      → create_for_send env ttl random flow ≡ (ok (some id), after)
      → (context : BlocksContext) × (flow.context ≡ some context)
        × (context.is_authenticated ≡ true)
        × Chained env context ttl random flow id after
  unfolding create_for_send
  create_for_send_chained n h = for_context-Chained flow.context n h

-- A send can raise: with an authenticated user, a well-formed held grant, no claims and a cache that
-- does not answer, the error of the read reaches the caller.
pub create_for_send_raises :
    (env : Env) (ttl : Option ℤ) (random : String) (flow : Flow) (context : BlocksContext)
    (held : String)
    → env.cache_up ≡ false
    → flow.context ≡ some context
    → context.is_authenticated ≡ true
    → is_empty context.tenant_id ≡ false
    → is_empty context.user_id ≡ false
    → flow.auth_claims ≡ none
    → flow.grant ≡ some held
    → is_empty held ≡ false
    → is_well_formed held ≡ true
    → create_for_send env ttl random flow ≡ (err cache_error, flow)
unfolding create_for_send for_context for_subject create_for_user with_material chosen of_user
    claims_material version_material read_held_grant held_under of_tenant get_grant looked_up
create_for_send_raises env ttl random flow context held up c a t u n g f wf =
    simp (up, c, a, t, u, n, g, f, wf)
