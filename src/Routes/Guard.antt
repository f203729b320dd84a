-- ===== src/Routes/Guard.antt =====
-- A handler for the owners of polls is not reached without a token (backend/cmd/server/main.go and
-- backend/internal/middleware/auth_middleware.go).
use poll.Prelude.{
  ℕ, String, ◌≡◌, refl, ap, sym, ◌∙◌, Bool, true, false, Option, none, some, List, All, get_elem?,
  All-get_elem?, if◌then◌else◌,
}
use mathlib.Core.Option.{none-ne-some, some-injective}
use poll.Api.Request.{Result, ok, err}
use poll.Accounts.{Libraries, Claims}
use poll.Accounts.Middleware.{auth_middleware}
use poll.Routes.{
  Endpoint, me, create_poll, list_my_polls, set_poll_status, delete_poll, Route, routes, Outcome,
  answered, not_found, unauthorized, handled, admitted, routed, unless_answered, serve,
}

-- the handlers that read or change what belongs to a user
abbrev pub is_owners : Endpoint → Bool
is_owners me = true
is_owners create_poll = true
is_owners list_my_polls = true
is_owners set_poll_status = true
is_owners delete_poll = true
is_owners _ = false

abbrev IsGuarded : Route → Type 0
IsGuarded r = is_owners r.handler ≡ r.is_protected

routes-IsGuarded : All IsGuarded routes
routes-IsGuarded = (
  refl,
  (refl, (refl, (refl, (refl, (refl, (refl, (refl, (refl, (refl, (refl, (refl, tt))))))))))),
)

-- A route that the router finds is in the table.
abbrev pub FindsListed : (List Route → (method path : String) → Option Route) → Type 0
FindsListed find_route =
    (rs : List Route) (method path : String) (r : Route)
    → find_route rs method path ≡ some r
    → (i : ℕ) × (get_elem? rs i ≡ some r)

-- what an outcome hands to an owner's handler
abbrev handed : Outcome → Option (Endpoint × Option Claims)
handed (handled e c) = some (e, c)
handed (answered n) = none
handed not_found = none
handed (unauthorized m) = none

module _ (find_route : List Route → (method path : String) → Option Route)
    (finds_listed : FindsListed find_route) (lib : Libraries) (now : ℕ)
    (method path header : String) where
  admitted_claims :
      (e f : Endpoint) (c : Option Claims) (a : Result Claims)
      → handed (admitted find_route lib f a) ≡ some (e, c)
      → (k : Claims) × (a ≡ ok k) × (c ≡ some k)
  admitted_claims e f c (err m) h = absurd (none-ne-some (e, c) h)
  admitted_claims e f c (ok k) h = (
    k,
    refl,
    sym (ap (λ (x : Endpoint × Option Claims). x.1) (some-injective (f, some k) (e, c) h)),
  )

  chosen_claims :
      (e f : Endpoint) (c : Option Claims) (a : Result Claims) (b : Bool)
      → is_owners f ≡ b
      → handed (if b then admitted find_route lib f a else handled f none) ≡ some (e, c)
      → is_owners e ≡ true
      → (k : Claims) × (a ≡ ok k) × (c ≡ some k)
  chosen_claims e f c a true g h o = admitted_claims e f c a h
  chosen_claims e f c a false g h o =
      let same : f ≡ e =
        ap (λ (x : Endpoint × Option Claims). x.0) (some-injective (f, none) (e, c) h) in
      (let bad : true ≡ false = sym o ∙ sym (ap is_owners same) ∙ g in cc)

  routed_claims :
      (e : Endpoint) (c : Option Claims) (found : Option Route)
      → find_route routes method path ≡ found
      → handed (routed find_route lib now header found) ≡ some (e, c)
      → is_owners e ≡ true
      → (k : Claims) × (auth_middleware lib now header ≡ ok k) × (c ≡ some k)
  routed_claims e c none same h o = absurd (none-ne-some (e, c) h)
  routed_claims e c (some r) same h o =
      let (i, at) = finds_listed routes method path r same in
      chosen_claims e r.handler c (auth_middleware lib now header) r.is_protected
        (All-get_elem? IsGuarded routes i r routes-IsGuarded at) h o

  unanswered :
      (status : Option ℕ) (o : Outcome) (e : Endpoint) (c : Option Claims)
      → handed (unless_answered find_route lib status o) ≡ some (e, c)
      → handed o ≡ some (e, c)
  unanswered none o e c h = h
  unanswered (some n) o e c h = absurd (none-ne-some (e, c) h)

  -- Whatever the request is, a handler that reads or changes what belongs to a user runs only behind a
  -- token that the middleware takes, with the claims of that token. Of the router it is known that it
  -- finds routes of the table.
  pub owners_need_tokens :
      (e : Endpoint) (c : Option Claims)
      → serve find_route lib now method path header ≡ handled e c
      → is_owners e ≡ true
      → (k : Claims) × (auth_middleware lib now header ≡ ok k) × (c ≡ some k)
  unfolding serve
  owners_need_tokens e c h o =
      routed_claims e c (find_route routes method path) refl
        (unanswered _ (routed find_route lib now header (find_route routes method path)) e c
          (ap handed h))
        o
