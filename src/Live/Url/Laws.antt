-- ===== src/Live/Url/Laws.antt =====
-- Which scheme the socket's address gets (frontend/src/hooks/usePollLiveResults.js), from the base
-- address that frontend/src/services/api.js makes.
use poll.Prelude.{String, ◌++◌, ◌≡◌, refl, ap, strip_prefix, starts_with, expand, trim}
use poll.Api.Base.{Env, or_empty, get_clean_api_base, get_clean_ws_base, replace_prefix}
use poll.Live.Url.{strip_scheme, ws_url}

abbrev pub socket_at : (scheme host poll_id : String) → String
socket_at scheme host poll_id = scheme ++ ("://" ++ (host ++ ("/api/polls/" ++ (poll_id ++ "/ws"))))

-- The scheme and the host that a base address stands for: a base that says `https://` gets an
-- encrypted socket, one that says `wss://`, `ws://` or `http://` gets one without encryption. A host
-- is what begins with neither `wss://` nor `ws://`.
pub ws_url_schemes :
    (host poll_id : String)
    → strip_scheme "ws" host ≡ host
    → (ws_url ("https://" ++ host) poll_id ≡ socket_at "wss" host poll_id)
      × (ws_url ("wss://" ++ host) poll_id ≡ socket_at "ws" host poll_id)
      × (ws_url ("ws://" ++ host) poll_id ≡ socket_at "ws" host poll_id)
      × (ws_url ("http://" ++ host) poll_id ≡ socket_at "ws" host poll_id)
unfolding ws_url strip_prefix starts_with
ws_url_schemes host poll_id plain = (
  rw (expand "https://" host) (ap (λ h. socket_at "wss" h poll_id) plain),
  rw (expand "wss://" host) refl,
  rw (expand "ws://" host) refl,
  rw (expand "http://" host) (ap (λ h. socket_at "ws" h poll_id) plain),
)

-- With no address for sockets configured, an `https://` address of the API gives a socket without
-- encryption.
pub secure_api_plain_socket :
    (env : Env) (host poll_id : String)
    → trim (or_empty env.vite_ws_url) ≡ ""
    → get_clean_api_base env ≡ "https://" ++ host
    → ws_url (get_clean_ws_base env) poll_id ≡ socket_at "ws" host poll_id
unfolding ws_url strip_prefix starts_with get_clean_ws_base replace_prefix
secure_api_plain_socket env host poll_id no_ws api =
    rw (no_ws, api, expand "https://" host) (rw (expand "ws") refl)
