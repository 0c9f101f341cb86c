-- ===== src/Lib.antt =====
-- blocks-genesis-py: the authentication, authorization and delegation of a multi-tenant service SDK.
--
-- A request reaches `authenticate` (blocks_genesis/_auth/auth.py). It takes the token from a header or
-- a cookie, finds the tenant, and validates the token: as a Blocks token under the tenant's
-- certificate, or as the token of one of the tenant's external identity providers, with a key resolved
-- for that provider. From the validated claims it builds the `BlocksContext` that everything
-- downstream reads, and stashes the claims. `authorize` then asks the database for a permission. A
-- message that is sent carries the context, sanitized, and a delegation grant; the worker that handles
-- the message rebuilds the context and holds the grant, and a message that it sends in turn carries
-- the grant's authority on. While it holds the grant, its outbound calls carry a token that is
-- exchanged for it.
--
-- Before `authenticate`, the tenant middleware finds the tenant of a request, refuses a tenant that is
-- disabled or an origin that is foreign, and sets an unauthenticated context, which it clears in the
-- end. Tenants come from a cache that update messages keep.
--
-- Files:
--   Prelude      dictionaries, texts, lists, whole numbers and results, as the source's language has
--                them; Prelude/Dict keeps the order of insertion
--   Json         decoded JSON values
--   Context      blocks_genesis/_auth/blocks_context.py: the record (Record), the message hop
--                (Transport), the contexts of validated tokens (Claims), the application domain
--                (Domain), and how pydantic reads a field (Fields)
--   Crypto       blocks_genesis/_utilities/crypto_service.py: `encrypt` and `decrypt`
--   Tenancy      blocks_genesis/_tenant: tenant.py (Tenant), and of tenant_service.py the cache with its
--                look-ups (Service), the loads that its callers share (Loading) and the update
--                messages (Updates)
--   Middlewares  blocks_genesis/_middlewares/tenant_middleware.py
--   Auth         blocks_genesis/_auth: jwt_signing_algorithm.py (Algorithm), third_party_provider.py
--                (Provider), third_party_provider_store.py (ProviderStore), third_party_selector.py (Selector), and auth.py: `_extract_claim_value`
--                to `map_third_party_claims` (ClaimsMapping), `extract_token_from_request`
--                (Extraction), `create_certificate` and `get_tenant_cert` (Certificate),
--                `_resolve_provider_key` (Keys), `validate_jwt_token` (Primary),
--                `validate_with_fallback` (Fallback), `authenticate` (Authenticate) and `authorize`
--                (Permission)
--   Delegation   blocks_genesis/_delegation: signature.py and constants.py (Signature), context.py
--                (Flow), grant_store.py (GrantStore), grant_factory.py (GrantFactory), and of
--                token_provider.py the exchange (Exchange), the cache and its locks (Tokens) and
--                `delegated_auth_headers` (Headers); endpoint_resolver.py (Endpoint)
--   Messaging    blocks_genesis/_message: event_registry.py, event_message.py and consumer.py
--                (Consumer), the two clients (Client), the senders of azure_message_client.py (Senders),
--                rabbit_message_worker.py (Rabbit), azure_message_worker.py (Azure), and what the two
--                workers share (Context); message_configuration.py (Configuration), the set-up of
--                Service Bus in azure/config_azure_service_bus.py (Topology), and rabbit_mq_service.py
--                with the start and the stop of its worker (Rabbit/Service)
--   Telemetry    blocks_genesis/_lmt: mongo_log_exporter.py (Logs) and mongo_trace_exporter.py (Traces,
--                with the document of a span in Document)
--   Subscription blocks_genesis/_subscription, and the two functions of auth.py that set its snapshot
--   Databases    blocks_genesis/_database/mongo_context.py, over the tenants of Tenancy/Service
--   Cache        the subscriptions of blocks_genesis/_cache/redis_client.py (Subscriptions)
--
-- State: `Auth.Host.World` holds the ambient context, the stashed claims and the cached certificates.
-- A coroutine is a function from it to a result and the world after (`Exec`); what was written before
-- an exception stays written. `Delegation.Flow.Flow` holds what a unit of work holds: the context, the
-- claims, the ambient grant and the cache. Each function of the source is one definition of the same
-- name, less its leading underscore; its guards and branches have helpers beside it.
--
-- `Messaging.Context.Worker` adds the cached tokens and the actions that a worker takes, in their order.
-- `Delegation.Tokens.Provider` is the token provider with the callers that share it: a caller runs from
-- one `await` to the next as one event, and a run is any sequence of events. A free lock may be taken
-- although others wait for it, which allows more runs than the source has; the sweep reads the clock
-- together with the call that makes it. The callers that load a
-- tenant (`Tenancy.Loading`) and those that send to Service Bus (`Messaging.Senders`) interleave in the
-- same way. The cancellation of a caller is left out.
--
-- The exporters of logs and traces have threads: a thread runs from one look at what others change to
-- the next as one event, and a wait on a queue may end at any event. What the database refuses of an
-- insert is an argument of the event. `Telemetry.Traces.Shared` records, beside the source's state, what
-- was put into the queue and what was refused.
--
-- Parameters: what the program takes from outside is an argument. `Auth.Host.Host` is the JWT library,
-- the readers of certificates, JWKS, network and disk, the clock, whether the cache answers, and the
-- tenants and active providers as they stand while one request is handled; `Crypto.Primitives` is
-- AES-GCM, SHA-256, base64 and UTF-8 with the laws they document; `Pydantic`, `Python` and `Datetime`
-- are how these read a value; `Delegation.Flow.Env` is `json` and the cache. The database's
-- `count_documents` is `Auth.Permission.Counter`. Random bytes are arguments of the calls that draw
-- them. `Exchange.Platform` and `Exchange.Attempt` are HMAC, JSON and what one exchange meets: the tenant,
-- the endpoint, the clock and IAM's answer. `Tenancy.Service.Database` is the tenants' collection,
-- `Subscription.Store` the rows of usage with the reading of their numbers, `Middlewares.Site` the
-- services that the middleware asks, and `call_next` any coroutine.
-- `Messaging.Context.Surroundings` is JSON, the grants' cache and the handlers; what the broker refuses
-- is a field of the message. `Messaging.Topology.Administration` is the client that sets Service Bus up,
-- `Messaging.Rabbit.Service.Broker` what RabbitMQ refuses, and the scheme of a connection string is `urlparse`.
--
-- Representation: a text is the native string, of which `lower` changes the ASCII letters; bytes are a
-- list of numbers; a time is in seconds, a datetime its `isoformat()` text; a certificate is the PEM
-- text of its public key; a JSON number with a fraction is its digits and a scale. An error is a value:
-- `AuthError` is an HTTP error or any other exception that is not handled. Every loop is a recursion on
-- a list or a text, but for the renewal of a Service Bus lock (`Messaging.Azure.Renewal`), which runs on
-- a number of turns.
--
-- Not modelled: log lines, tracing properties and their failures; the quota check, which the source
-- disables; the expiry of a cached value between two requests; the test mode of the context; the
-- loads that callers of the provider store and of the endpoint resolver share; the
-- polling of Service Bus; messages of RabbitMQ that are handled at the same time; the start and end of services; the reads and writes of the cache client, and the
-- key vault, which call libraries only.
pub mod Prelude
pub mod Json
pub mod Context
pub mod Crypto
pub mod Tenancy
pub mod Telemetry
pub mod Delegation
pub mod Auth
pub mod Middlewares
pub mod Subscription
pub mod Databases
pub mod Cache
pub mod Messaging
