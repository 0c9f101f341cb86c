-- ===== src/Messaging/Client/Hop.antt =====
-- A message from the client that sends it to the worker that handles it.
use blocks_genesis_py.Prelude.{
  String, Bool, true, false, [], ◌∷◌, Option, none, some, ◌≡◌, refl, sym, ap, ◌∙◌, inl, inr,
  Bool-cases, arith,
}
use blocks_genesis_py.Prelude.Dict.{Dict, get, insert}
use blocks_genesis_py.Prelude.Result.{Result, ok, err}
use blocks_genesis_py.Prelude.Text.{is_empty, or_text, starts_with}
use blocks_genesis_py.Json.{Value, obj, fields}
use blocks_genesis_py.Context.Record.{BlocksContext}
use blocks_genesis_py.Context.Transport.{create_sanitized_for_transport, from_transport}
use blocks_genesis_py.Context.Transport.RoundTrip.{sanitized, ReadsIso, from_transport-create}
use blocks_genesis_py.Delegation.Flow.{Flow, Env, set_grant}
use blocks_genesis_py.Delegation.Signature.{
  is_well_formed, new_grant_id, IsTokenHex, new_grant_id-well_formed,
}
use blocks_genesis_py.Delegation.GrantStore.{StoreError}
use blocks_genesis_py.Delegation.GrantFactory.{create_for_send}
use blocks_genesis_py.Delegation.GrantFactory.Fresh.{create_for_send-FreshGrant}
use blocks_genesis_py.Messaging.Context.{Surroundings, Worker, given_grant, restored}
use blocks_genesis_py.Messaging.Context.Restored.{restored-context}
use blocks_genesis_py.Messaging.Rabbit.{incoming, started}
use blocks_genesis_py.Messaging.Client.{
  ConsumerMessage, Tracing, Outgoing, object_fields, given_text, with_grant, headers_of, body_of,
  published, send_message,
}

fields-object_fields : (d : Dict Value) → fields (object_fields d) ≡ d
unfolding object_fields
fields-object_fields [] = refl
fields-object_fields ((k, v) ∷ d) = ap (λ e. (k, v) ∷ e) (fields-object_fields d)

module _ (env : Env) (tracing : Tracing) (m : ConsumerMessage)
    (context : Option BlocksContext) where
  -- The header of the context, whether or not a grant is attached.
  headers_of-context :
      (grant : Option String)
      → get (headers_of env tracing m context grant) "SecurityContext"
        ≡ some (
            or_text
              (given_text m.context)
              (env.json_dumps (obj (object_fields (create_sanitized_for_transport context)))))
  unfolding headers_of with_grant get insert
  headers_of-context none = refl
  headers_of-context (some g) = elim (Bool-cases (is_empty g)) [
    | inl e ↦ rw e refl
    | inr e ↦ rw e refl
  ]

  headers_of-grant :
      (grant : Option String)
      → given_grant (get (headers_of env tracing m context grant) "DelegationGrant")
        ≡ given_grant grant
  unfolding headers_of with_grant get insert given_grant
  headers_of-grant none = refl
  headers_of-grant (some g) = elim (Bool-cases (is_empty g)) [
    | inl e ↦ rw e refl
    | inr e ↦ rw e (rw e refl)
  ]

published-ok :
    (env : Env) (tracing : Tracing) (m : ConsumerMessage) (works : Bool)
    (context : Option BlocksContext) (r : Result StoreError (Option String) × Flow) (out : Outgoing)
    → (published env tracing m works context r).0 ≡ ok out
    → (grant : Option String) × (r.0 ≡ ok grant)
      × (out.headers ≡ headers_of env tracing m context grant)
unfolding published
published-ok env tracing m works context (err e, flow) out h = cc
published-ok env tracing m false context (ok g, flow) out h = cc
published-ok env tracing m true context (ok g, flow) out h =
    let sent : record { headers = headers_of env tracing m context g; body = body_of env tracing m }
        ≡ out =
      ground arith in
    (g, refl, ap (λ (o : Outgoing). o.headers) (sym sent))

well_formed_filled : (id : String) → is_well_formed id ≡ true → is_empty id ≡ false
unfolding is_well_formed starts_with
well_formed_filled String.[] h = cc
well_formed_filled (String.◌∷◌ c id) h = refl

held_as_given :
    (id : String) (flow : Flow)
    → is_well_formed id ≡ true
    → (set_grant (given_grant (some id)) flow).grant ≡ some id
unfolding set_grant given_grant
held_as_given id flow h = rw (well_formed_filled id h) (rw h refl)

-- An attached grant is held by the worker.
attached-held :
    (random : String) (g : Option String) (flow : Flow)
    → IsTokenHex random
    → ((id : String) → g ≡ some id → id ≡ new_grant_id random)
    → (set_grant (given_grant g) flow).grant ≡ g
unfolding set_grant given_grant
attached-held random none flow hex fresh = refl
attached-held random (some id) flow hex fresh =
    held_as_given id flow (ap is_well_formed (fresh id refl) ∙ new_grant_id-well_formed random hex)

incoming-security_context :
    (headers : Dict String) (body : Option String) (ack_works : Bool) (t : String)
    → get headers "SecurityContext" ≡ some t
    → (incoming headers body ack_works).security_context ≡ t
unfolding incoming
incoming-security_context headers body ack_works t e =
    ap (λ (q : Option String). elim q [ none ↦ "" | some v ↦ v ]) e

-- The context's object as it is sent.
abbrev pub wire : BlocksContext → Value
wire c = obj (object_fields (create_sanitized_for_transport (some c)))

sent-text :
    (env : Env) (tracing : Tracing) (m : ConsumerMessage) (flow : Flow) (c : BlocksContext)
    (g : Option String)
    → flow.context ≡ some c
    → m.context ≡ none
    → get (headers_of env tracing m flow.context g) "SecurityContext"
      ≡ some (env.json_dumps (wire c))
unfolding given_text
sent-text env tracing m flow c g here plain =
    headers_of-context env tracing m flow.context g
    ∙ ap
        (λ q. some (
          or_text (given_text q)
            (env.json_dumps (obj (object_fields (create_sanitized_for_transport flow.context))))))
        plain
    ∙ ap (λ x. some (env.json_dumps (obj (object_fields (create_sanitized_for_transport x))))) here

-- A worker that gets what the client of RabbitMQ has sent restores the sender's context, masked as it
-- travels, and holds the grant that the send has made, if any; for a message that names no context of
-- its own, fresh random digits, and JSON of the context that is read back as it was written.
pub restored-sent :
    (s : Surroundings) (tracing : Tracing) (m : ConsumerMessage) (works ack_works : Bool)
    (random : String) (flow : Flow) (c : BlocksContext) (out : Outgoing) (body : Option String)
    (w : Worker)
    → (send_message s.env tracing m works random flow).0 ≡ ok out
    → flow.context ≡ some c
    → m.context ≡ none
    → IsTokenHex random
    → ReadsIso s.pydantic c.expire_on
    → is_empty (s.env.json_dumps (wire c)) ≡ false
    → s.env.json_loads (s.env.json_dumps (wire c)) ≡ some (wire c)
    → ((started s (incoming out.headers body ack_works) w).flow.context ≡ some (sanitized c))
      × ((create_for_send s.env m.delegation_ttl_seconds random flow).0
          ≡ ok (started s (incoming out.headers body ack_works) w).flow.grant)
unfolding send_message incoming restored set_grant
restored-sent s tracing m works ack_works random flow c out body w sent here plain hex iso filled
      loads =
    let made = create_for_send s.env m.delegation_ttl_seconds random flow in
    let (g, granted, heads) = published-ok s.env tracing m works flow.context made out sent in
    let grant = given_grant (incoming out.headers body ack_works).delegation_grant in
    let raw = (incoming out.headers body ack_works).security_context in
    let text : raw ≡ s.env.json_dumps (wire c) =
      incoming-security_context out.headers body ack_works (s.env.json_dumps (wire c))
        (ap (λ h. get h "SecurityContext") heads ∙ sent-text s.env tracing m flow c g here plain) in
    let grants : grant ≡ given_grant g =
      ap (λ h. given_grant (get h "DelegationGrant")) heads
      ∙ headers_of-grant s.env tracing m flow.context g in
    (
      restored-context s raw grant w (object_fields (create_sanitized_for_transport (some c)))
          (some (sanitized c)) (ap is_empty text ∙ filled) (ap s.env.json_loads text ∙ loads)
          (ap (λ d. from_transport s.pydantic (some d))
              (fields-object_fields (create_sanitized_for_transport (some c)))
            ∙ from_transport-create s.pydantic c iso),
      granted
          ∙ ap (λ x. ok x)
              (sym (
                ap (λ q. (set_grant q w.flow).grant) grants
                ∙ attached-held random g w.flow hex (λ id e.
                  create_for_send-FreshGrant s.env m.delegation_ttl_seconds random flow id
                    (granted ∙ ap (λ x. ok x) e)))),
    )
