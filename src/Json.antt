-- ===== src/Json.antt =====
-- The values of a decoded JSON document: what `json.loads` and `jwt.decode` return. A number with a
-- fraction is its digits and how many of them stand behind the point.
use Prim.Native.Nat.{ℕ}
use blocks_genesis_py.Prelude.{String, Bool, true, false, not, List, [], ◌∷◌, Option, none, some}
use blocks_genesis_py.Prelude.Dict.{Dict}
use blocks_genesis_py.Prelude.Int.{ℤ, is_zero}
use blocks_genesis_py.Prelude.Text.{is_empty}

mutual
  -- The pairs of an object, in their order.
  pub data Fields : Type 0 where
    no_fields : Fields
    field : String → Value → Fields → Fields

  pub data Value : Type 0 where
    null : Value
    bool : Bool → Value
    int : ℤ → Value
    float : ℤ → ℕ → Value
    str : String → Value
    obj : Fields → Value
    arr : Items → Value

  pub data Items : Type 0 where
    no_items : Items
    item : Value → Items → Items

abbrev pub items : Items → List Value
items no_items = []
items (item v vs) = v ∷ items vs

abbrev pub fields : Fields → Dict Value
fields no_fields = []
fields (field k v fs) = (k, v) ∷ fields fs

-- `bool(v)`
unfoldable pub is_truthy : Value → Bool
is_truthy null = false
is_truthy (bool b) = b
is_truthy (int n) = not (is_zero n)
is_truthy (float m d) = not (is_zero m)
is_truthy (str s) = not (is_empty s)
is_truthy (arr no_items) = false
is_truthy (arr (item v vs)) = true
is_truthy (obj no_fields) = false
is_truthy (obj (field k v fs)) = true

-- `bool(d.get(k))`
abbrev pub is_set : Option Value → Bool
is_set none = false
is_set (some v) = is_truthy v

-- A list of texts, as a JSON array.
abbrev pub strings : List String → Items
strings [] = no_items
strings (s ∷ ss) = item (str s) (strings ss)
