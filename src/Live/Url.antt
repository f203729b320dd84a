-- ===== src/Live/Url.antt =====
-- The address of the socket (`connectWs` of frontend/src/hooks/usePollLiveResults.js).
pub mod Laws
use poll.Prelude.{
  String, ◌++◌, ◌≡◌, refl, true, false, none, some, if◌then◌else◌, strip_prefix, starts_with,
  Option,
}

-- `url.replace(/^p(s)?:\/\//, '')` for the scheme `p`
unfoldable pub strip_scheme : String → String → String
strip_scheme scheme url = elim (strip_prefix (scheme ++ "s://") url) [
  | some rest ↦ rest
  | none ↦ elim (strip_prefix (scheme ++ "://") url) [ some rest ↦ rest | none ↦ url ]
]

unfoldable pub ws_url : (ws_base poll_id : String) → String
unfolding strip_scheme
ws_url ws_base poll_id =
    let ws_protocol = if starts_with ws_base "https" then "wss" else "ws" in
    let clean_host = strip_scheme "ws" (strip_scheme "http" ws_base) in
    ws_protocol ++ ("://" ++ (clean_host ++ ("/api/polls/" ++ (poll_id ++ "/ws"))))
