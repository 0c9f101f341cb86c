-- ===== src/Auth/Fallback/Ambient.antt =====
-- Third-party validation changes the cache at most.
use blocks_genesis_py.Prelude.{String, Bool, true, false, List, Option, none, some, refl, ◌∙◌}
use blocks_genesis_py.Prelude.Text.{is_empty}
use blocks_genesis_py.Prelude.Result.{Result, ok, err}
use blocks_genesis_py.Tenancy.Tenant.{Tenant}
use blocks_genesis_py.Auth.Provider.{ThirdPartyJwtProvider}
use blocks_genesis_py.Auth.Selector.{ThirdPartyProviderSelection, ThirdPartyProviderResult}
use blocks_genesis_py.Auth.Host.{Host, Request, World, Exec, AuthError}
use blocks_genesis_py.Auth.Exec.Keeps.{Keeps, SameAmbient, keeps_rules}
use blocks_genesis_py.Auth.Keys.Ambient.{resolve_provider_key-Keeps}
use blocks_genesis_py.Auth.Fallback.{
  Fallback, guarded, declares, tenant_declared_on_request, with_provider, with_choice,
  with_selection, with_store, run_fallback, accepted, validate_with_fallback,
}

guarded-Keeps :
    (enabled no_token declared : Bool) (rest : Exec Fallback)
    → Keeps rest
    → Keeps (guarded enabled no_token declared rest)
unfolding guarded
guarded-Keeps false no_token declared rest h = search keeps_rules
guarded-Keeps true true declared rest h = search keeps_rules
guarded-Keeps true false false rest h = search keeps_rules
guarded-Keeps true false true rest h = h

module _ (host : Host) (token : String) (tenant : Tenant) (request : Request) where
  with_choice-Keeps :
      (outcome : ThirdPartyProviderSelection) (o : Option ThirdPartyJwtProvider)
      → Keeps (with_choice host token tenant request outcome o)
  unfolding with_choice with_provider
  with_choice-Keeps outcome none = search keeps_rules
  with_choice-Keeps outcome (some provider) = search (keeps_rules, resolve_provider_key-Keeps)

  with_selection-Keeps :
      (selection : ThirdPartyProviderResult)
      → Keeps (with_selection host token tenant request selection)
  unfolding with_selection
  with_selection-Keeps selection = with_choice-Keeps selection.outcome selection.provider

  with_store-Keeps :
      (o : Option (String → List ThirdPartyJwtProvider))
      → Keeps (with_store host token tenant request o)
  unfolding with_store
  with_store-Keeps none = search keeps_rules
  with_store-Keeps (some get_active) = search (keeps_rules, with_selection-Keeps)

  run_fallback-Keeps : Keeps (run_fallback host token tenant request)
  unfolding run_fallback
  run_fallback-Keeps =
      guarded-Keeps tenant.is_third_party_jwt_enabled (is_empty token)
        (declares (tenant_declared_on_request request) tenant.tenant_id) _
        (with_store-Keeps host.provider_store)

  accepted-SameAmbient : (r : Result AuthError Fallback × World) → SameAmbient (accepted r).1 r.1
  unfolding accepted
  accepted-SameAmbient (ok f, w) = (refl, refl)
  accepted-SameAmbient (err e, w) = (refl, refl)

  pub validate_with_fallback-Keeps : Keeps (validate_with_fallback host token tenant request)
  unfolding validate_with_fallback
  validate_with_fallback-Keeps = record {
    at = λ w.
        let (c, a) = accepted-SameAmbient (run_fallback host token tenant request w) in
        let (d, b) = run_fallback-Keeps.at w in (c ∙ d, a ∙ b);
  }
