-- ===== src/Context/Transport/RoundTrip.antt =====
-- A context that travels on a message and is rebuilt by the worker.
use blocks_genesis_py.Prelude.{String, Option, none, some, ◌≡◌, refl}
use blocks_genesis_py.Prelude.Dict.{get}
use blocks_genesis_py.Prelude.Result.{ok}
use blocks_genesis_py.Prelude.Text.{or_text}
use blocks_genesis_py.Json.{str}
use blocks_genesis_py.Context.Record.{BlocksContext}
use blocks_genesis_py.Context.Fields.{
  Pydantic, str_field, list_field-strings, bool_field-bool, datetime_field,
}
use blocks_genesis_py.Context.Transport.{
  create_sanitized_for_transport, from_transport, rebuild, masked_email, masked_phone, iso_value,
  non_null,
}

-- What is left of a context after the message hop.
abbrev pub sanitized : BlocksContext → BlocksContext
sanitized c = record c {
  email = masked_email c.email;
  phone_number = masked_phone c.phone_number;
  oauth_token = "";
  original_tenant_id = or_text c.original_tenant_id c.tenant_id;
  impersonation_session_id = "";
}

-- The datetime's text is read as that datetime.
abbrev pub ReadsIso : Pydantic → Option String → Type 0
ReadsIso pydantic none = Unit
ReadsIso pydantic (some t) = pydantic.as_datetime (str t) ≡ some t

datetime-iso :
    (pydantic : Pydantic) (t : Option String)
    → ReadsIso pydantic t
    → datetime_field pydantic (non_null (iso_value t)) ≡ ok t
unfolding datetime_field iso_value non_null
datetime-iso pydantic none h = refl
datetime-iso pydantic (some t) h = rw h

-- The worker's context is the sender's, with the e-mail and the phone number masked, the token and
-- the impersonation session dropped, and the tenant standing in for a missing original tenant.
pub from_transport-create :
    (pydantic : Pydantic) (c : BlocksContext)
    → ReadsIso pydantic c.expire_on
    → from_transport pydantic (some (create_sanitized_for_transport (some c)))
      ≡ ok (some (sanitized c))
unfolding from_transport rebuild create_sanitized_for_transport get str_field
from_transport-create pydantic c h =
    simp (list_field-strings, bool_field-bool, datetime-iso pydantic c.expire_on h)
