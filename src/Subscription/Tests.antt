-- ===== src/Subscription/Tests.antt =====
-- A tenant with one meter.
use blocks_genesis_py.Prelude.{
  ℕ, Bool, true, false, [], ◌∷◌, Option, none, some, Elem, ltb, nat_eq, Bool-cases, subst, ◌==◌,
  ◌&&◌, eq_iff, if◌then◌else◌, ◌≡◌, inl, inr, refl, sym, ap, arith,
}
use blocks_genesis_py.Prelude.Int.{ℤ, pos}
use blocks_genesis_py.Prelude.Dict.{get}
use blocks_genesis_py.Json.{Value, str, int, bool, is_truthy}
use blocks_genesis_py.Context.Record.{BlocksContext, empty_context}
use blocks_genesis_py.Auth.Permission.{Counter}
use blocks_genesis_py.Auth.Tests.{toy_host, request}
use blocks_genesis_py.Subscription.{
  UsageResult, Doc, UsageQuery, Store, Usage, number, scale, to_result, to_results,
  get_usage_current, resolve_subscription_usage, snapshot_dependency, for_meter,
}
use blocks_genesis_py.Subscription.Isolated.{Belongs, Finds, resolve_subscription_usage-Belongs}
use blocks_genesis_py.Subscription.Open.{Opens, snapshot_dependency-Opens}

abbrev calls : Doc
calls =
    ("TenantId", str "T")
    ∷ ("OrganizationId", str "O")
    ∷ ("SubscriptionStatus", int (pos 3))
    ∷ ("MeterKey", str "calls")
    ∷ ("Used", int (pos 7))
    ∷ ("Included", int (pos 5))
    ∷ ("OverageAllowed", bool false)
    ∷ ("QuantityScale", int (pos 9))
    ∷ []

abbrev whole : Value → Option ℤ
whole (int n) = some n
whole _ = none

abbrev natural : Value → Option ℕ
natural (int (pos n)) = some n
natural _ = none

abbrev matching : UsageQuery → Bool
matching q = q.tenant_id == "T" && q.organization_id == "O" && nat_eq q.subscription_status 3

abbrev toy_store : Store ℕ
toy_store = record {
  float_of = natural;
  zero_quantity = 0;
  at_most = λ a b. if ltb b a then false else true;
  int_of = whole;
  find = λ q. some (if matching q then calls ∷ [] else []);
}

abbrev calls_result : UsageResult ℕ
calls_result = record {
  allowed = false;
  meter_key = "calls";
  used = 7;
  remaining = 0;
  overage = 0;
  replayed = false;
  quantity_scale = 6;
  is_fraction_allowed = true;
}

made : to_result toy_store calls ≡ some calls_result
unfolding to_result get is_truthy number scale
made = refl

toy_store-Finds : Finds toy_store
unfolding get
toy_store-Finds q docs doc h m = elim (Bool-cases (matching q)) [
  | inl e ↦
      let same : calls ∷ [] ≡ docs = ground arith in
      let tenant : q.tenant_id ≡ "T" = ground (arith, eq_iff q.tenant_id "T") in
      let organization : q.organization_id ≡ "O" = ground (arith, eq_iff q.organization_id "O") in
      let status : q.subscription_status ≡ 3 = ground arith in
      elim (subst (Elem doc) (sym same) m) [
        | inl x ↦ rw x (
          sym (ap (λ t. some (str t)) tenant),
          sym (ap (λ t. some (str t)) organization),
          sym (ap (λ n. some (int (pos n))) status),
        )
        | inr y ↦ absurd y
      ]
  | inr e ↦ let same : [] ≡ docs = ground arith in absurd (subst (Elem doc) (sym same) m)
]

abbrev caller : BlocksContext
caller = record empty_context { tenant_id = "T"; organization_id = "O" }

abbrev usage : Usage ℕ
usage = record {
  world = record { context = some caller; auth_claims = none; cert_cache = [] };
  snapshot = none;
}

resolve_subscription_usage-Belongs_example :
    (doc : Doc) × Belongs "T" "O" doc × (to_result toy_store doc ≡ some calls_result)
unfolding resolve_subscription_usage to_results to_result get is_truthy number scale
    get_usage_current
resolve_subscription_usage-Belongs_example =
    resolve_subscription_usage-Belongs toy_store 0 "U" "P" usage caller (calls_result ∷ [])
      calls_result toy_store-Finds refl refl refl refl (inl refl)

abbrev no_permission : Counter
no_permission t q = none

snapshot_dependency-Opens_example :
    Opens toy_store no_permission toy_host request 0 "" ""
      (some caller)
      usage
      (snapshot_dependency toy_store no_permission toy_host request 0 false "" "" usage)
snapshot_dependency-Opens_example =
    snapshot_dependency-Opens toy_store no_permission toy_host request 0 "" "" usage

unknown_meter : for_meter toy_store "seats" (some (calls_result ∷ [])) ≡ none
unfolding for_meter
unknown_meter = refl
