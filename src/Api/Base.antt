-- ===== src/Api/Base.antt =====
-- The base addresses of frontend/src/services/api.js: `getCleanApiBase` and `getCleanWsBase`.
-- The regular expressions are functions by clauses over the text.
pub mod Laws
use Prim.Native.Char.{Char, code}
use Prim.Native.String.{[], ◌∷◌}
use poll.Prelude.{
  String, ◌++◌, Bool, Option, none, some, ◌==◌, eqb, if◌then◌else◌, drop_end, strip_prefix,
  starts_with, trim, is_empty,
}

-- The variables of `import.meta.env`; a variable that is not set is `none`.
pub record Env : Type 0 where
  pub vite_api_url : Option String
  pub vite_ws_url : Option String

-- `value || ''`
abbrev pub or_empty : Option String → String
or_empty none = ""
or_empty (some s) = s

unfoldable pub is_slash : Char → Bool
is_slash c = eqb (code c) b'/'

-- `url.replace(/\/+$/, '')`
unfoldable pub strip_slashes : String → String
unfolding is_slash
strip_slashes = drop_end is_slash

-- `url.replace(/\/api$/, '')`
unfoldable pub strip_api : String → String
strip_api [] = []
strip_api (c ∷ s) = let rest = strip_api s in if (c ∷ s) == "/api" then [] else c ∷ rest

-- `url.replace(/^p/, r)` for a plain text `p`
unfoldable pub replace_prefix : String → String → String → String
replace_prefix p r s = elim (strip_prefix p s) [ none ↦ s | some rest ↦ r ++ rest ]

-- the two replacements that both functions make at the end
unfoldable pub clean : String → String
clean url = strip_api (strip_slashes url)

unfoldable pub get_clean_api_base : Env → String
get_clean_api_base env =
    let url = trim (or_empty env.vite_api_url) in
    if is_empty url then "http://localhost:8080" else clean url

unfoldable pub get_clean_ws_base : Env → String
get_clean_ws_base env =
    let url = trim (or_empty env.vite_ws_url) in
    let api_base = get_clean_api_base env in
    if is_empty url
    then (if starts_with api_base "http"
        then replace_prefix "http" "ws" api_base
        else "ws://localhost:8080")
    else clean url
