-- ===== src/Api/Request/Laws.antt =====
-- What every request carries, and what an error says (`request` of frontend/src/services/api.js).
use text.Mathlib.TextLemmas.{cons-append}
use poll.Prelude.{
  ℕ, String, ◌++◌, ◌≡◌, refl, ap, sym, ◌∙◌, true, false, none, some, [], ◌==◌, arith, if◌then◌else◌,
  truthy, Option, ◌⊎◌, inl, inr, show,
}
use poll.Api.Storage.{Storage, Chance, get_item, get_voter_fingerprint}
use poll.Api.Storage.Laws.{get_item-set_item, fingerprint_persists, fingerprint_stored}
use poll.Api.Request.{
  vote, Headers, Options, HttpRequest, authorize, request, Response, success, failure,
  network_error, ok, err, Result, Payload, failed_with, error_message, finish, cast_vote,
}

failed_with-truthy : (n : ℕ) → truthy (failed_with n) ≡ true
failed_with-truthy n = ap truthy (cons-append "R" "equest failed with status " (show n))

error_message-truthy : (n : ℕ) (e : Option String) → truthy (error_message n e) ≡ true
unfolding error_message
error_message-truthy n none = failed_with-truthy n
error_message-truthy n (some e) = ground (arith, failed_with-truthy n)

-- the message of an error
abbrev message : {A : Type 0} → Result A → String
message (ok a) = ""
message (err m) = m

err_inj : {A : Type 0} {m n : String} → ◌≡◌ {A = Result A} (err m) (err n) → m ≡ n
err_inj h = ap message h

-- An answer that is not a success is an error, whose message is that of the network, or not empty.
pub finish_err :
    {A : Type 0} (r : Response A) (m : String)
    → finish r ≡ err m
    → (r ≡ network_error m) ⊎ (truthy m ≡ true)
unfolding finish
finish_err (failure n e) m h = inr (rw (err_inj h) at (error_message-truthy n e))
finish_err (network_error x) m h = inl (cc)
finish_err (success a) m h = cc

-- What `Authorization` should be for a stored token.
abbrev pub bearer : Option String → Option String
bearer none = none
bearer (some t) = if truthy t then some ("Bearer " ++ t) else none

module _ (headers : Headers) where
  authorize_other :
      (token : Option String) (k : String)
      → "Authorization" == k ≡ false
      → get_item k (authorize token headers) ≡ get_item k headers
  unfolding authorize
  authorize_other none k h = refl
  authorize_other (some t) k h =
      ground (arith, get_item-set_item "Authorization" k ("Bearer " ++ t) headers)

  authorize_self :
      (token : Option String)
      → get_item "Authorization" headers ≡ none
      → get_item "Authorization" (authorize token headers) ≡ bearer token
  unfolding authorize
  authorize_self none h = h
  authorize_self (some t) h =
      ground (arith, get_item-set_item "Authorization" "Authorization" ("Bearer " ++ t) headers)

module _ (api_base : String) (c : Chance) (store : Storage) where
  abbrev sent : String → Options → HttpRequest
  sent endpoint options = (request api_base c store endpoint options).0

  -- A request of the client carries the type of its body, the fingerprint that the storage holds
  -- after it, and a bearer token exactly if one is stored and not empty.
  pub request_headers :
      (endpoint method : String) (body : Option Payload)
      → let o : Options = record { method = method; headers = []; body = body } in
        (get_item "Content-Type" (sent endpoint o).headers ≡ some "application/json")
        × (get_item "X-Voter-Fingerprint" (sent endpoint o).headers
            ≡ get_item "voter_fingerprint" (request api_base c store endpoint o).1)
        × (get_item "Authorization" (sent endpoint o).headers
            ≡ bearer (get_item "auth_token" store))
  unfolding request get_item
  request_headers endpoint method body = (
    authorize_other _ (get_item "auth_token" store) "Content-Type" refl,
    authorize_other _ (get_item "auth_token" store) "X-Voter-Fingerprint" refl
        ∙ sym (fingerprint_stored c store).1,
    authorize_self _ (get_item "auth_token" store) refl,
  )

-- A vote carries one fingerprint in its body and in its header, the one that the storage holds after
-- it; the storage is as a single call of `getVoterFingerprint` leaves it.
pub cast_vote_fingerprint :
    (api_base : String) (c d : Chance) (store : Storage) (poll_id option_id : String)
    → let (fp, store') = get_voter_fingerprint c store in
      let (sent, after) = cast_vote api_base c d store poll_id option_id in
      (sent.body ≡ some (vote option_id fp))
      × (get_item "X-Voter-Fingerprint" sent.headers ≡ some fp)
      × (after ≡ store')
unfolding cast_vote get_item
cast_vote_fingerprint api_base c d store poll_id option_id = (
  refl,
  authorize_other _ (get_item "auth_token" (get_voter_fingerprint c store).1) "X-Voter-Fingerprint"
        refl
      ∙ ap some (ap (λ (p : String × Storage). p.0) (fingerprint_persists c d store)),
  ap (λ (p : String × Storage). p.1) (fingerprint_persists c d store),
)
