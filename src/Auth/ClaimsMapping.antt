-- ===== src/Auth/ClaimsMapping.antt =====
-- The claim mapping of blocks_genesis/_auth/auth.py: `_extract_claim_value`, `_resolve_mapped_claim`,
-- `extract_roles_from_claim` and `map_third_party_claims`, without their log lines.
pub mod Washed
use blocks_genesis_py.Prelude.{
  ℕ, String, Bool, true, false, not, ◌&&◌, ◌||◌, List, [], ◌∷◌, Option, none, some, ◌≡◌, is_nil,
  map, filter, ◌==◌, if◌then◌else◌,
}
use blocks_genesis_py.Prelude.Dict.{Dict, get}
use blocks_genesis_py.Prelude.Text.{is_empty, is_blank, lower, split}
use blocks_genesis_py.Json.{
  Value, null, bool, int, float, str, arr, obj, Items, items, Fields, fields, is_truthy, is_set,
}
use blocks_genesis_py.Context.Claims.{Claims}
use blocks_genesis_py.Auth.Provider.{ThirdPartyClaimsMapping, ThirdPartyJwtProvider, is_configured}

-- What is taken over from the language: `str(v)` of a decoded value, and `json.loads`, `none` where
-- it raises.
pub record Python : Type 0 where
  pub text_of : Value → String
  pub json_loads : String → Option Value
  pub text_of-str : (s : String) → text_of (str s) ≡ s

-- `claims.get(k) or ""`
abbrev pub claim_or_empty : Option Value → Value
claim_or_empty none = str ""
claim_or_empty (some v) = if is_truthy v then v else str ""

-- The result of `map_third_party_claims`. The first three are whatever value the claim holds.
pub record Mapped : Type 0 where
  pub subject : Value
  pub email : Value
  pub user_name : Value
  pub display_name : String
  pub roles : List String

second? : List String → Option (String × String)
second? (a ∷ b ∷ rest) = some (a, b)
second? _ = none

-- `parts[0]` and `parts[-1]`, of two parts at least.
last_of : String → List String → String
last_of a [] = a
last_of a (b ∷ rest) = last_of b rest

ends? : List String → Option (String × String)
unfolding last_of
ends? (a ∷ b ∷ rest) = some (a, last_of b rest)
ends? _ = none

unfoldable pub texts_of : List Value → List String
texts_of [] = []
texts_of (str s ∷ vs) = s ∷ texts_of vs
texts_of (_ ∷ vs) = texts_of vs

module _ (python : Python) where
  open python use {text_of, json_loads}

  -- "" for None, else `str(value)`
  shown : Value → String
  shown null = ""
  shown v = text_of v

  -- The container of a nested claim, decoded if it is a text; `none` where it is no object.
  container_of : Value → Option Fields
  container_of (obj fs) = some fs
  container_of (str s) = elim (json_loads s) [ some (obj fs) ↦ some fs | _ ↦ none ]
  container_of _ = none

  nested : Claims → String → String → Option Value
  unfolding container_of
  nested claims claim property = elim (get claims claim) [
    | none ↦ none
    | some v ↦ elim (container_of v) [ none ↦ none | some fs ↦ get (fields fs) property ]
  ]

  unfoldable pub extract_claim_value : Claims → String → String
  unfolding shown nested second?
  extract_claim_value claims mapping =
      if is_nil claims || is_empty mapping then "" else elim (get claims mapping) [
        | some v ↦ shown v
        | none ↦ elim (second? (split b'.' mapping)) [
          | none ↦ ""
          | some (claim, property) ↦ elim (nested claims claim property) [
            | none ↦ ""
            | some v ↦ shown v
          ]
        ]
      ]

  unfoldable pub resolve_mapped_claim : Claims → String → String
  resolve_mapped_claim claims mapping =
      if is_blank mapping then "" else extract_claim_value claims mapping

  -- The roles of a claim by its literal name, `[]` where it carries none.
  literal_roles : Option Value → List String
  literal_roles (some (str s)) = if is_empty s then [] else s ∷ []
  literal_roles (some (arr vs)) = map text_of (filter is_truthy (items vs))
  literal_roles _ = []

  nested_roles : Option Value → List String
  unfolding texts_of
  nested_roles (some (arr vs)) = texts_of (items vs)
  nested_roles _ = []

  unfoldable pub extract_roles_from_claim : Claims → String → List String
  unfolding literal_roles nested_roles nested ends?
  extract_roles_from_claim claims roles_mapping =
      let literal = literal_roles (get claims roles_mapping) in
      if is_nil claims || is_empty roles_mapping
      then []
      else if not (is_nil literal)
      then literal
      else elim (ends? (split b'.' roles_mapping)) [
        | none ↦ []
        | some (claim, property) ↦ nested_roles (nested claims claim property)
      ]

  unfoldable pub map_third_party_claims : Claims → ThirdPartyJwtProvider → Option Mapped
  map_third_party_claims claims provider =
      let mapping = provider.claims_mapping in
      let standard_email = claim_or_empty (get claims "email") in
      if not (is_configured mapping)
      then none
      else some (record {
        subject =
            if mapping.user_id == "sub"
            then claim_or_empty (get claims "sub")
            else str (resolve_mapped_claim claims mapping.user_id);
        email =
            if is_truthy standard_email
            then standard_email
            else str (resolve_mapped_claim claims mapping.email);
        user_name =
            if lower mapping.user_name == "email"
            then standard_email
            else str (resolve_mapped_claim claims mapping.user_name);
        display_name = resolve_mapped_claim claims mapping.name;
        roles = extract_roles_from_claim claims mapping.roles;
      })
