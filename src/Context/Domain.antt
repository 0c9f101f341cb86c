-- ===== src/Context/Domain.antt =====
-- `normalize_domain`, `is_localhost_host` and `resolve_application_domain` of
-- blocks_genesis/_auth/blocks_context.py. The host name of a URL is the parameter `hostname`:
-- `urllib.parse.urlparse(url).hostname`, `none` where that is None or empty, or raises.
use blocks_genesis_py.Prelude.{String, Bool, ◌||◌, Option, none, some, ◌==◌, if◌then◌else◌}
use blocks_genesis_py.Prelude.Dict.{Dict, get}
use blocks_genesis_py.Prelude.Text.{
  is_empty, is_blank, strip, lower, contains, remove, before, concat,
}

module _ (hostname : String → Option String) where
  unfoldable pub normalize_domain : String → String
  normalize_domain url =
      let raw = strip url in
      let candidate = if contains raw "://" then raw else concat "//" raw in
      if is_blank url then "" else elim (hostname candidate) [
        | some host ↦ lower (strip host)
        | none ↦
            lower (strip (before b':' (before b'/' (remove "http://" (remove "https://" raw)))))
      ]

  unfoldable pub is_localhost_host : String → Bool
  unfolding normalize_domain
  is_localhost_host host =
      let normalized = normalize_domain host in
      normalized == "localhost" || normalized == "127.0.0.1" || normalized == "::1"

  -- The domain of a header, `none` where there is none to read.
  header_domain : Option String → Option String
  unfolding normalize_domain
  header_domain none = none
  header_domain (some value) =
      let normalized = normalize_domain value in
      if is_empty value then none else if is_empty normalized then none else some normalized

  -- Of the headers, under their lower-case names.
  unfoldable pub resolve_application_domain : Dict String → Option String
  unfolding header_domain
  resolve_application_domain headers = elim (header_domain (get headers "origin")) [
    | some domain ↦ some domain
    | none ↦ header_domain (get headers "referer")
  ]
