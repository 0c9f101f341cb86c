-- ===== src/Delegation/Endpoint/Resolved.antt =====
-- Where a token endpoint comes from, and what a look-up caches.
use blocks_genesis_py.Prelude.{
  String, true, Option, none, some, ◌≡◌, refl, sym, ap, subst, ◌∙◌, inl, inr, Bool-cases,
}
use blocks_genesis_py.Prelude.Dict.{Dict, get, insert}
use blocks_genesis_py.Prelude.Result.{Result, ok, err}
use blocks_genesis_py.Prelude.Text.{is_empty}
use blocks_genesis_py.Delegation.Endpoint.{
  Settings, Network, EndpointError, resolve_setting, endpoint_key, try_discover, fallen_back,
  after_discovery, cached_or, get_token_endpoint,
}

-- Nothing to use is missing or empty.
abbrev pub IsMissing : Option String → Type 0
IsMissing none = Unit
IsMissing (some e) = is_empty e ≡ true

-- The sources in their order, and the cache after.
pub data Source (s : Settings) (n : Network) (tenant_id : String) (before : Dict String)
    (endpoint : String) : Dict String → Type 0 where
  cached : get before tenant_id ≡ some endpoint → Source s n tenant_id before endpoint before
  discovered :
      IsMissing (get before tenant_id)
      → try_discover s n tenant_id ≡ ok (some endpoint)
      → Source s n tenant_id before endpoint (insert before tenant_id endpoint)
  configured :
      (q : Option String)
      → IsMissing (get before tenant_id)
      → try_discover s n tenant_id ≡ ok q
      → IsMissing q
      → resolve_setting s endpoint_key ≡ some endpoint
      → Source s n tenant_id before endpoint before

module _ (s : Settings) (n : Network) (tenant_id : String) (before : Dict String)
    (endpoint : String) where
  Found : Result EndpointError String × Dict String → Type 0
  Found (err e, after) = Unit
  Found (ok e, after) = e ≡ endpoint → Source s n tenant_id before endpoint after

  fallen_back-Found :
      (setting q : Option String)
      → resolve_setting s endpoint_key ≡ setting
      → IsMissing (get before tenant_id)
      → try_discover s n tenant_id ≡ ok q
      → IsMissing q
      → Found (fallen_back setting before)
  unfolding fallen_back Found
  fallen_back-Found none q r m d h = tt
  fallen_back-Found (some e) q r m d h = λ same. configured q m d h (r ∙ ap (λ x. some x) same)

  after_discovery-Found :
      (r : Result EndpointError (Option String))
      → IsMissing (get before tenant_id)
      → try_discover s n tenant_id ≡ r
      → Found (after_discovery s tenant_id r before)
  unfolding after_discovery Found
  after_discovery-Found (err e) m d = tt
  after_discovery-Found (ok none) m d =
      fallen_back-Found (resolve_setting s endpoint_key) none refl m d tt
  after_discovery-Found (ok (some e)) m d = elim (Bool-cases (is_empty e)) [
    | inl b ↦ rw b (fallen_back-Found (resolve_setting s endpoint_key) (some e) refl m d b)
    | inr b ↦ rw b (λ same.
        subst (λ x. Source s n tenant_id before endpoint (insert before tenant_id x)) (sym same)
          (discovered m (d ∙ ap (λ x. ok (some x)) same)))
  ]

  cached_or-Found :
      (q : Option String)
      → get before tenant_id ≡ q
      → Found (cached_or q before (after_discovery s tenant_id (try_discover s n tenant_id) before))
  unfolding cached_or Found
  cached_or-Found none g =
      after_discovery-Found (try_discover s n tenant_id) (subst IsMissing (sym g) tt) refl
  cached_or-Found (some e) g = elim (Bool-cases (is_empty e)) [
    | inl b ↦
        rw b (after_discovery-Found (try_discover s n tenant_id) (subst IsMissing (sym g) b) refl)
    | inr b ↦ rw b (λ same. cached (g ∙ ap (λ x. some x) same))
  ]

  get_token_endpoint-Found : Found (get_token_endpoint s n tenant_id before)
  unfolding get_token_endpoint Found
  get_token_endpoint-Found = elim (Bool-cases (is_empty tenant_id)) [
    | inl b ↦ rw b tt
    | inr b ↦ rw b (cached_or-Found (get before tenant_id) refl)
  ]

  -- An endpoint that is resolved is the tenant's cached one, else the one that discovery gives, which
  -- is then cached, else the configured one, which is not cached; discovery is used only where nothing
  -- is cached, and the configuration only where discovery gives nothing.
  pub get_token_endpoint-Source :
      (after : Dict String)
      → get_token_endpoint s n tenant_id before ≡ (ok endpoint, after)
      → Source s n tenant_id before endpoint after
  unfolding Found
  get_token_endpoint-Source after h =
      let found : Found (ok endpoint, after) = subst Found h get_token_endpoint-Found in found refl
