-- ===== src/Voting/Handler.antt =====
-- The handler of a vote: `CastVote` of backend/internal/handlers/vote_handler.go.
use poll.Prelude.{
  ℕ, String, ◌≡◌, refl, ap, ◌∙◌, Bool, true, false, not, ◌&&◌, Option, none, some, if◌then◌else◌,
  is_empty, truthy, inl, inr, Bool-cases,
}
use poll.Models.{Number, LivePollResult}
use poll.Api.Storage.{get_item}
use poll.Api.Request.{
  Payload, vote, HttpRequest, Response, success, failure, Result, ok, err, finish,
}
use poll.Voting.{Server, or_else}
use poll.Voting.Casting.{casting, is_ok}

-- The option and the fingerprint of a body that `ShouldBindJSON` takes: a field `optionId` that is
-- missing or empty is refused.
abbrev pub bind_vote : Option Payload → Option (String × String)
bind_vote (some (vote option_id fp)) = if is_empty option_id then none else some (option_id, fp)
bind_vote _ = none

-- the fingerprint of the body, or the one of the header where the body has none
abbrev pub chosen_fingerprint : (header body : String) → String
chosen_fingerprint header body = if not (is_empty header) && is_empty body then header else body

-- the answer for what the service returns
abbrev pub respond : Result LivePollResult × Server → Response LivePollResult × Server
respond (ok live, s) = (success live, s)
respond (err m, s) = (failure 400 (some m), s)

module _ (percent : ℕ → ℕ → Number) (is_object_id : String → Bool) where
  -- the handler after the body is bound
  unfoldable pub cast_bound :
      (poll_id client_ip header : String)
      → Server
      → Option (String × String)
      → Response LivePollResult × Server
  cast_bound poll_id client_ip header s none = (failure 400 (some "Option ID is required"), s)
  cast_bound poll_id client_ip header s (some (option_id, fp)) =
      respond
        (casting percent is_object_id poll_id option_id (chosen_fingerprint header fp) client_ip s)

  -- `CastVote` of the handler, for the poll of the route
  unfoldable pub handle_cast_vote :
      (poll_id client_ip : String) → HttpRequest → Server → Response LivePollResult × Server
  unfolding cast_bound
  handle_cast_vote poll_id client_ip req s =
      if is_empty poll_id
      then (failure 400 (some "Poll ID is required"), s)
      else cast_bound poll_id client_ip (or_else "" (get_item "X-Voter-Fingerprint" req.headers)) s
          (bind_vote req.body)

  pub respond_ok : (r : Result LivePollResult × Server) → is_ok (finish (respond r).0) ≡ is_ok r.0
  unfolding finish
  respond_ok (ok live, s) = refl
  respond_ok (err m, s) = refl

  pub respond_server : (r : Result LivePollResult × Server) → (respond r).1 ≡ r.1
  respond_server (ok live, s) = refl
  respond_server (err m, s) = refl

  chosen_full : (header fp : String) → truthy fp ≡ true → chosen_fingerprint header fp ≡ fp
  chosen_full header String.[] h = cc
  chosen_full header (String.◌∷◌ c fp) h = elim (Bool-cases (is_empty header)) [
    | inl e ↦ rw e refl
    | inr e ↦ rw e refl
  ]

  bind_full :
      (option_id fp : String)
      → is_empty option_id ≡ false
      → bind_vote (some (vote option_id fp)) ≡ some (option_id, fp)
  bind_full option_id fp h = rw h refl

  module _ (poll_id option_id fp ip : String) (req : HttpRequest) (s : Server) where
    abbrev answer : Response LivePollResult × Server
    answer = handle_cast_vote poll_id ip req s

    -- a request that carries a vote with a fingerprint, and what the service says to it
    pub handled :
        is_empty poll_id ≡ false
        → is_empty option_id ≡ false
        → req.body ≡ some (vote option_id fp)
        → truthy fp ≡ true
        → answer ≡ respond (casting percent is_object_id poll_id option_id fp ip s)
    unfolding handle_cast_vote
    handled id option body full = rw id (
        ap (cast_bound poll_id ip _ s) (ap bind_vote body ∙ bind_full option_id fp option)
        ∙ ap (λ f. respond (casting percent is_object_id poll_id option_id f ip s))
            (chosen_full _ fp full))

    pub unnamed : is_empty poll_id ≡ true → (is_ok (finish answer.0) ≡ false) × (answer.1 ≡ s)
    unfolding handle_cast_vote finish
    unnamed id = rw id (refl, refl)

    pub unchosen :
        is_empty poll_id ≡ false
        → is_empty option_id ≡ true
        → req.body ≡ some (vote option_id fp)
        → (is_ok (finish answer.0) ≡ false) × (answer.1 ≡ s)
    unfolding handle_cast_vote finish
    unchosen id option body = rw id (rw body (rw option (refl, refl)))
