-- ===== src/Subscription.antt =====
-- The usage of a subscription: blocks_genesis/_subscription (models.py, enums.py, repository.py,
-- usage_service.py and context.py), and `resolve_subscription_usage` and `subscription_usage_snapshot`
-- of blocks_genesis/_auth/auth.py. A quantity is a float of the source: its type is a parameter.
pub mod Scale
pub mod Isolated
pub mod Open
mod Tests
use blocks_genesis_py.Prelude.{
  ℕ, zero, suc, min, String, Bool, true, false, not, ◌&&◌, ◌||◌, List, [], ◌∷◌, Option, none, some,
  find?, is_some, ◌==◌, ltb, if◌then◌else◌,
}
use blocks_genesis_py.Prelude.Int.{ℤ, pos, negsuc}
use blocks_genesis_py.Prelude.Dict.{Dict, get}
use blocks_genesis_py.Prelude.Result.{Result, ok, err}
use blocks_genesis_py.Prelude.Text.{is_empty, or_text}
use blocks_genesis_py.Json.{Value, null, str, is_truthy}
use blocks_genesis_py.Context.Record.{BlocksContext}
use blocks_genesis_py.Auth.Host.{Host, Request, World, AuthError, http_exception}
use blocks_genesis_py.Auth.Permission.{Counter, authorize_dependency}

-- `SubscriptionStatus.ACTIVE`
abbrev pub active : ℕ
active = 3

pub record UsageResult (Quantity : Type 0) : Type 0 where
  pub allowed : Bool
  pub meter_key : String
  pub used : Quantity
  pub remaining : Quantity
  pub overage : Quantity
  pub replayed : Bool
  pub quantity_scale : ℕ
  pub is_fraction_allowed : Bool

-- A row of SubscriptionUsageCurrent.
abbrev pub Doc : Type 0
Doc = Dict Value

-- The filter of `get_current_usage_docs`; the period is the one that holds `now`.
pub record UsageQuery : Type 0 where
  pub tenant_id : String
  pub organization_id : String
  pub subscription_status : ℕ
  pub now : ℕ

-- What Python and the database give: how a stored value is read, `none` where that raises, and the
-- rows of a query, `none` where the read fails.
pub record Store (Quantity : Type 0) : Type 0 where
  pub float_of : Value → Option Quantity
  pub zero_quantity : Quantity
  pub at_most : Quantity → Quantity → Bool
  pub int_of : Value → Option ℤ
  pub find : UsageQuery → Option (List Doc)

-- The snapshot beside what the request handling holds.
pub record Usage (Quantity : Type 0) : Type 0 where
  pub world : World
  pub snapshot : Option (List (UsageResult Quantity))

abbrev pub max_quantity_scale : ℕ
max_quantity_scale = 6

clamped : Option ℤ → ℕ
clamped none = 0
clamped (some (pos n)) = min max_quantity_scale n
clamped (some (negsuc n)) = 0

module _ {Quantity : Type 0} (store : Store Quantity) where
  or_zero : Option Quantity → Quantity
  or_zero none = store.zero_quantity
  or_zero (some q) = q

  -- `_number`
  unfoldable pub number : Option Value → Quantity
  unfolding or_zero
  number none = store.zero_quantity
  number (some null) = store.zero_quantity
  number (some value) = or_zero (store.float_of value)

  -- `_scale`
  unfoldable pub scale : Option Value → ℕ
  unfolding clamped
  scale none = 0
  scale (some value) = clamped (store.int_of value)

  overage_allowed : Option Value → Bool
  unfolding is_truthy
  overage_allowed none = true
  overage_allowed (some value) = is_truthy value

  text_of : Value → Option String
  text_of (str s) = some s
  text_of _ = none

  -- The model takes a text only.
  meter_key : Option Value → Option String
  unfolding text_of is_truthy
  meter_key none = some ""
  meter_key (some value) = if is_truthy value then text_of value else some ""

  row : Doc → Option String → Option (UsageResult Quantity)
  unfolding overage_allowed number scale
  row doc none = none
  row doc (some key) =
      let used = number (get doc "Used") in
      let scale = scale (get doc "QuantityScale") in
      some (record {
        allowed =
            store.at_most used (number (get doc "Included"))
            || overage_allowed (get doc "OverageAllowed");
        meter_key = key;
        used = used;
        remaining = number (get doc "Remaining");
        overage = number (get doc "Overage");
        replayed = false;
        quantity_scale = scale;
        is_fraction_allowed = ltb 0 scale;
      })

  -- `_to_result`; none where the model refuses the row.
  unfoldable pub to_result : Doc → Option (UsageResult Quantity)
  unfolding row meter_key
  to_result doc = row doc (meter_key (get doc "MeterKey"))

  consed :
      Option (UsageResult Quantity)
      → Option (List (UsageResult Quantity))
      → Option (List (UsageResult Quantity))
  consed none rows = none
  consed (some r) none = none
  consed (some r) (some rows) = some (r ∷ rows)

  unfoldable pub to_results : List Doc → Option (List (UsageResult Quantity))
  unfolding consed
  to_results [] = some []
  to_results (doc ∷ docs) = consed (to_result doc) (to_results docs)

  rows_of : Option (List Doc) → Option (List (UsageResult Quantity))
  rows_of none = none
  rows_of (some docs) = to_results docs

  -- `get_usage_current`, where what it raises is caught: none either way.
  unfoldable pub get_usage_current : ℕ → String → String → Option (List (UsageResult Quantity))
  unfolding rows_of
  get_usage_current now tenant_id organization_id =
      if is_empty tenant_id || is_empty organization_id
      then none
      else rows_of (
          store.find (record {
            tenant_id = tenant_id;
            organization_id = organization_id;
            subscription_status = active;
            now = now;
          }))

  unfoldable pub effective_tenant : Option BlocksContext → String → String
  effective_tenant none tenant_id = tenant_id
  effective_tenant (some c) tenant_id = or_text c.tenant_id tenant_id

  unfoldable pub effective_organization : Option BlocksContext → String → String
  effective_organization none organization_id = organization_id
  effective_organization (some c) organization_id = or_text c.organization_id organization_id

  -- `resolve_subscription_usage`; an id that is not given is the empty text.
  unfoldable pub resolve_subscription_usage :
      ℕ → String → String → Usage Quantity → Option (List (UsageResult Quantity)) × Usage Quantity
  unfolding get_usage_current effective_tenant effective_organization
  resolve_subscription_usage now tenant_id organization_id u =
      let snapshot =
        get_usage_current now (effective_tenant u.world.context tenant_id)
          (effective_organization u.world.context organization_id) in
      (snapshot, record u { snapshot = snapshot })

  has_both : String → String → Bool
  has_both tenant_id organization_id = not (is_empty tenant_id) && not (is_empty organization_id)

  resolved :
      ℕ
      → String
      → String
      → Option BlocksContext
      → Usage Quantity
      → Result AuthError (Option BlocksContext) × Usage Quantity
  resolved now tenant_id organization_id context u =
      if is_some context || has_both tenant_id organization_id
      then (ok context, (resolve_subscription_usage now tenant_id organization_id u).1)
      else (err (http_exception 401 "Missing context"), u)

  after_authorize :
      ℕ
      → String
      → String
      → Result AuthError BlocksContext × World
      → Usage Quantity
      → Result AuthError (Option BlocksContext) × Usage Quantity
  unfolding resolved has_both
  after_authorize now tenant_id organization_id (err e, w) u = (err e, record u { world = w })
  after_authorize now tenant_id organization_id (ok c, w) u =
      resolved now tenant_id organization_id (some c) (record u { world = w })

  -- The dependency of `subscription_usage_snapshot`.
  unfoldable pub snapshot_dependency :
      Counter
      → Host
      → Request
      → ℕ
      → Bool
      → String
      → String
      → Usage Quantity
      → Result AuthError (Option BlocksContext) × Usage Quantity
  unfolding after_authorize resolved has_both
  snapshot_dependency counter host request now true tenant_id organization_id u =
      after_authorize now tenant_id organization_id
        (authorize_dependency counter host request "" true u.world) u
  snapshot_dependency counter host request now false tenant_id organization_id u =
      resolved now tenant_id organization_id u.world.context u

  -- `SubscriptionUsageContext.for_meter`
  unfoldable pub for_meter :
      String → Option (List (UsageResult Quantity)) → Option (UsageResult Quantity)
  for_meter key none = none
  for_meter key (some rows) = find? (λ r. r.meter_key == key) rows
