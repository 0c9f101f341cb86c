-- ===== src/Messaging/Context/Restored.antt =====
-- What a worker restores from a message.
use blocks_genesis_py.Prelude.{String, false, Option, none, some, ◌≡◌, ap, ◌∙◌}
use blocks_genesis_py.Prelude.Result.{Result, ok, err}
use blocks_genesis_py.Prelude.Text.{is_empty}
use blocks_genesis_py.Json.{obj, Fields, fields}
use blocks_genesis_py.Context.Record.{BlocksContext}
use blocks_genesis_py.Context.Fields.{ValidationError}
use blocks_genesis_py.Context.Transport.{from_transport}
use blocks_genesis_py.Delegation.Flow.{Flow, set_grant}
use blocks_genesis_py.Messaging.Context.{
  Surroundings, Worker, restored, restore_security_context, loaded_context, with_context, carried,
}

module _ (s : Surroundings) where
  carried-obj :
      (fs : Fields) (c : Option BlocksContext)
      → from_transport s.pydantic (some (fields fs)) ≡ ok c
      → carried s.pydantic (obj fs) ≡ some c
  unfolding carried
  carried-obj fs c e =
      ap
        (λ (r : Result ValidationError (Option BlocksContext)). elim r [
          | ok c ↦ some c
          | err e ↦ none
        ])
        e

  loaded_context-obj :
      (fs : Fields) (c : Option BlocksContext) (flow : Flow)
      → carried s.pydantic (obj fs) ≡ some c
      → (loaded_context s (some (obj fs)) flow).context ≡ c
  unfolding loaded_context with_context
  loaded_context-obj fs c flow e = ap (λ q. (with_context q flow).context) e

  -- The context of a header that holds an object is the one that the object is read as.
  pub restored-context :
      (raw : String) (grant : Option String) (w : Worker) (fs : Fields) (c : Option BlocksContext)
      → is_empty raw ≡ false
      → s.env.json_loads raw ≡ some (obj fs)
      → from_transport s.pydantic (some (fields fs)) ≡ ok c
      → (restored s raw grant w).flow.context ≡ c
  unfolding restored restore_security_context set_grant
  restored-context raw grant w fs c filled loads reads = rw filled (
      ap (λ q. (loaded_context s q w.flow).context) loads
      ∙ loaded_context-obj fs c w.flow (carried-obj fs c reads))
