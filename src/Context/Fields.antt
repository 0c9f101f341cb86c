-- ===== src/Context/Fields.antt =====
-- How pydantic reads the fields of a `BlocksContext` out of JSON values.
use blocks_genesis_py.Prelude.{String, Bool, false, List, [], ◌∷◌, Option, none, some, ◌≡◌, refl}
use blocks_genesis_py.Prelude.Result.{Result, ok, err, ◌>>=◌, or_raise}
use blocks_genesis_py.Json.{Value, null, bool, str, arr, Items, no_items, item, strings}

pub data ValidationError : Type 0 where
  validation_error : ValidationError

-- What is taken over from pydantic: how it reads a bool and a datetime out of a value. A bool is
-- read as it is. A datetime is given back as its `isoformat()` text.
pub record Pydantic : Type 0 where
  pub as_bool : Value → Option Bool
  pub as_datetime : Value → Option String
  pub as_bool-bool : (b : Bool) → as_bool (bool b) ≡ some b

-- A text field takes a text, and nothing else.
unfoldable pub str_field : Option Value → Result ValidationError String
str_field none = ok ""
str_field (some (str s)) = ok s
str_field (some _) = err validation_error

texts : Items → Result ValidationError (List String)
texts no_items = ok []
texts (item (str s) vs) = do rest ← texts vs; ok (s ∷ rest)
texts (item _ vs) = err validation_error

unfoldable pub list_field : Option Value → Result ValidationError (List String)
unfolding texts
list_field none = ok []
list_field (some (arr vs)) = texts vs
list_field (some _) = err validation_error

module _ (pydantic : Pydantic) where
  unfoldable pub bool_field : Option Value → Result ValidationError Bool
  bool_field none = ok false
  bool_field (some v) = or_raise (pydantic.as_bool v) validation_error

  unfoldable pub datetime_field : Option Value → Result ValidationError (Option String)
  datetime_field none = ok none
  datetime_field (some null) = ok none
  datetime_field (some v) = do t ← or_raise (pydantic.as_datetime v) validation_error; ok (some t)

texts-strings : (ss : List String) → texts (strings ss) ≡ ok ss
unfolding texts
texts-strings [] = refl
texts-strings (s ∷ ss) = rw (texts-strings ss)

pub list_field-strings : (ss : List String) → list_field (some (arr (strings ss))) ≡ ok ss
unfolding list_field
list_field-strings ss = texts-strings ss

pub bool_field-bool : (pydantic : Pydantic) (b : Bool) → bool_field pydantic (some (bool b)) ≡ ok b
unfolding bool_field
bool_field-bool pydantic b = rw (pydantic.as_bool-bool b)
