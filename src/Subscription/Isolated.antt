-- ===== src/Subscription/Isolated.antt =====
-- Whose usage a snapshot shows.
use blocks_genesis_py.Prelude.{
  ℕ, String, false, ◌||◌, List, [], ◌∷◌, Option, none, some, Elem, ◌≡◌, refl, sym, ap, subst, ◌∙◌,
  inl, inr, Bool-cases, arith,
}
use blocks_genesis_py.Prelude.Dict.{get}
use blocks_genesis_py.Prelude.Int.{pos}
use blocks_genesis_py.Prelude.Text.{is_empty}
use blocks_genesis_py.Json.{str, int}
use blocks_genesis_py.Context.Record.{BlocksContext}
use blocks_genesis_py.Subscription.{
  UsageResult, Doc, UsageQuery, Store, Usage, active, to_result, consed, to_results, rows_of,
  get_usage_current, effective_tenant, effective_organization, resolve_subscription_usage,
}

-- A row of an active subscription of a tenant and an organization.
abbrev pub Belongs : String → String → Doc → Type 0
Belongs tenant_id organization_id doc =
    (get doc "TenantId" ≡ some (str tenant_id))
    × (get doc "OrganizationId" ≡ some (str organization_id))
    × (get doc "SubscriptionStatus" ≡ some (int (pos active)))

-- What the database promises of a query of equalities: each row that it gives matches them.
abbrev pub Finds : {Q : Type 0} → Store Q → Type 0
Finds store =
    (q : UsageQuery) (docs : List Doc) (doc : Doc)
    → store.find q ≡ some docs
    → Elem doc docs
    → (get doc "TenantId" ≡ some (str q.tenant_id))
      × (get doc "OrganizationId" ≡ some (str q.organization_id))
      × (get doc "SubscriptionStatus" ≡ some (int (pos q.subscription_status)))

consed-some :
    {Q : Type 0} (store : Store Q) (a : Option (UsageResult Q)) (b : Option (List (UsageResult Q)))
    (rows : List (UsageResult Q))
    → consed store a b ≡ some rows
    → (x : UsageResult Q) × (xs : List (UsageResult Q)) × (a ≡ some x)
      × (b ≡ some xs)
      × (rows ≡ x ∷ xs)
unfolding consed
consed-some store none b rows h = cc
consed-some store (some x) none rows h = cc
consed-some store (some x) (some xs) rows h = (x, xs, refl, refl, ground arith)

-- Each result is that of a document.
from_docs :
    {Q : Type 0} (store : Store Q) (docs : List Doc) (rows : List (UsageResult Q))
    (r : UsageResult Q)
    → to_results store docs ≡ some rows
    → Elem r rows
    → (doc : Doc) × Elem doc docs × (to_result store doc ≡ some r)
unfolding to_results
from_docs store [] rows r h m =
    let none_left : [] ≡ rows = ground arith in absurd (subst (Elem r) (sym none_left) m)
from_docs store (d ∷ docs) rows r h m =
    let (x, xs, e, es, whole) =
      consed-some store (to_result store d) (to_results store docs) rows h in
    elim (subst (Elem r) whole m) [
      | inl same ↦ (d, inl refl, e ∙ ap some (sym same))
      | inr rest ↦
          let (doc, member, made) = from_docs store docs xs r es rest in (doc, inr member, made)
    ]

rows_of-some :
    {Q : Type 0} (store : Store Q) (o : Option (List Doc)) (rows : List (UsageResult Q))
    → rows_of store o ≡ some rows
    → (docs : List Doc) × (o ≡ some docs) × (to_results store docs ≡ some rows)
unfolding rows_of
rows_of-some store none rows h = cc
rows_of-some store (some docs) rows h = (docs, refl, h)

module _ {Q : Type 0} (store : Store Q) (finds : Finds store) (now : ℕ) where
  usage-Belongs :
      (tenant_id organization_id : String) (rows : List (UsageResult Q)) (r : UsageResult Q)
      → get_usage_current store now tenant_id organization_id ≡ some rows
      → Elem r rows
      → (is_empty tenant_id ≡ false)
        × (doc : Doc) × Belongs tenant_id organization_id doc
        × (to_result store doc ≡ some r)
  unfolding get_usage_current
  usage-Belongs t o rows r h m = elim (Bool-cases (is_empty t || is_empty o)) [
    | inl e ↦ absurd (ground (arith))
    | inr e ↦
        let (docs, found, made) = rows_of-some store _ rows (rw e at h) in
        let (doc, member, result) = from_docs store docs rows r made m in
        (ground arith, doc, finds _ docs doc found member, result)
  ]

effective_tenant-own :
    {Q : Type 0} (store : Store Q) (o : Option BlocksContext) (c : BlocksContext) (given : String)
    → o ≡ some c
    → is_empty c.tenant_id ≡ false
    → effective_tenant store o given ≡ c.tenant_id
unfolding effective_tenant
effective_tenant-own store none c given e f = cc
effective_tenant-own store (some d) c given e f = ground arith

effective_organization-own :
    {Q : Type 0} (store : Store Q) (o : Option BlocksContext) (c : BlocksContext) (given : String)
    → o ≡ some c
    → is_empty c.organization_id ≡ false
    → effective_organization store o given ≡ c.organization_id
unfolding effective_organization
effective_organization-own store none c given e f = cc
effective_organization-own store (some d) c given e f = ground arith

-- Over a database whose rows match the query: where the caller's context names a tenant and an
-- organization, every row of the snapshot that is set is the result of a row of an active subscription
-- of that tenant and that organization, whichever ids the endpoint gives.
pub resolve_subscription_usage-Belongs :
    {Q : Type 0} (store : Store Q) (now : ℕ) (given_tenant given_organization : String)
    (u : Usage Q) (c : BlocksContext) (rows : List (UsageResult Q)) (r : UsageResult Q)
    → Finds store
    → u.world.context ≡ some c
    → is_empty c.tenant_id ≡ false
    → is_empty c.organization_id ≡ false
    → (resolve_subscription_usage store now given_tenant given_organization u).1.snapshot
      ≡ some rows
    → Elem r rows
    → (doc : Doc) × Belongs c.tenant_id c.organization_id doc × (to_result store doc ≡ some r)
unfolding resolve_subscription_usage
resolve_subscription_usage-Belongs store now t o u c rows r finds e has_tenant has_organization h
      m =
    let tenant = effective_tenant-own store u.world.context c t e has_tenant in
    let organization = effective_organization-own store u.world.context c o e has_organization in
    let (full, doc, belongs, made) =
      usage-Belongs store finds now c.tenant_id c.organization_id rows r
        (ap (λ x. get_usage_current store now x c.organization_id) (sym tenant)
          ∙ ap (λ x. get_usage_current store now (effective_tenant store u.world.context t) x)
              (sym organization)
          ∙ h)
        m in
    (doc, belongs, made)
