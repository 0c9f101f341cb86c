-- ===== src/Subscription/Open.antt =====
-- The dependency that sets a snapshot.
use blocks_genesis_py.Prelude.{
  ℕ, String, true, false, ◌||◌, ◌&&◌, not, Option, none, some, ◌≡◌, refl, inl, inr, ◌⊎◌,
  either_branch, arith,
}
use blocks_genesis_py.Prelude.Result.{Result, ok, err}
use blocks_genesis_py.Prelude.Text.{is_empty}
use blocks_genesis_py.Context.Record.{BlocksContext}
use blocks_genesis_py.Auth.Host.{Host, Request, AuthError, http_exception}
use blocks_genesis_py.Auth.Permission.{Counter}
use blocks_genesis_py.Subscription.{
  Store, Usage, resolve_subscription_usage, has_both, resolved, snapshot_dependency,
}

module _ {Q : Type 0} (store : Store Q) (counter : Counter) (host : Host) (request : Request)
    (now : ℕ) (tenant_id organization_id : String) where
  abbrev pub Opens :
      Option BlocksContext → Usage Q → Result AuthError (Option BlocksContext) × Usage Q → Type 0
  Opens c u r =
      (r.1.world ≡ u.world)
      × (((r.0 ≡ ok c)
            × (r.1 ≡ (resolve_subscription_usage store now tenant_id organization_id u).1)
            × (((context : BlocksContext) × (c ≡ some context))
                ⊎ ((is_empty tenant_id || is_empty organization_id) ≡ false)))
          ⊎ ((r.0 ≡ err (http_exception 401 "Missing context"))
              × (c ≡ none)
              × ((is_empty tenant_id || is_empty organization_id) ≡ true)
              × (r.1 ≡ u)))

  resolved-Opens :
      (c : Option BlocksContext) (u : Usage Q)
      → Opens c u (resolved store now tenant_id organization_id c u)
  unfolding resolved resolve_subscription_usage has_both
  resolved-Opens (some c) u = (refl, inl (refl, refl, inl (c, refl)))
  resolved-Opens none u =
      either_branch (Opens none u) (not (is_empty tenant_id) && not (is_empty organization_id))
        (λ b. (refl, inl (refl, refl, inr (ground arith))))
        (λ b. (refl, inr (refl, refl, ground arith, refl)))

  -- Whatever the database does, an endpoint behind `authorize` is refused with 401, and nothing changes,
  -- or it gets the context that this has left, and only the snapshot changes, to the usage that is resolved
  -- from the context and the ids. It is refused exactly without a context and without both ids.
  pub snapshot_dependency-Opens :
      (u : Usage Q)
      → Opens u.world.context u
          (snapshot_dependency store counter host request now false tenant_id organization_id u)
  unfolding snapshot_dependency
  snapshot_dependency-Opens u = resolved-Opens u.world.context u
