-- ===== src/Accounts/Tests.antt =====
-- The theorems on accounts (backend/internal/services/auth_service.go) at an input.
use mathlib.Core.Option.{some-injective}
use mathlib.Core.Path.{subst}
use poll.Polls.Space.{rune_count}
use poll.Accounts.Mongo as Mongo
use poll.Accounts.Mongo.{Users, IsUnique, insert_user}
use poll.Accounts.Mongo.Store.{by_address, by_address-IsUnique}
use poll.Accounts.Mongo.Racing.{insert_all, first_wins}
use poll.Prelude.{
  Bool-cases, eq_refl, String, ◌≡◌, ◌≢◌, refl, ap, sym, ◌∙◌, true, false, ◌&&◌, Bool, Option, none,
  some, [], ◌∷◌, List, ◌==◌, eqb, eq_iff, if◌then◌else◌, arith, inl, inr, truthy, value_at,
}
use poll.Models.{User, AuthResponse}
use poll.Api.Storage.{Chance, get_item}
use poll.Api.Request.{Payload, signup, credentials, Result, ok, err, success, finish}
use poll.Auth.Session.{start}
use poll.Voting.{or_else}
use poll.Accounts.{
  Account, login_found, Claims, Libraries, Draw, Accounts, register, handle_register, handle_login,
  week, find_email,
}
use poll.Accounts.Middleware.{split_spaces, serve_me}
use poll.Accounts.Signin.{IsSound, me_request, signed_in_is_known}
use poll.Accounts.Keeping.{Event, registers, logs_in, run, own_emails}
use poll.Accounts.Emails.{IsKeyed, HaveOwnEmails}
use poll.Accounts.Return.{met, sign_up_then_in}

-- a token for one user at one time
abbrev claims : Claims
claims = record { sub = "u1"; username = "ada"; email = "a@h"; exp = week; iat = 0 }

abbrev is_same : Claims → Bool
is_same c =
    c.sub == "u1" && c.username == "ada" && c.email == "a@h" && eqb c.exp week && eqb c.iat 0

abbrev lib : Libraries
lib = record {
  hash = λ salt p. some p;
  matches = λ h p. h == p;
  sign = λ c. if is_same c then ok "tok" else err "no key";
  parse = λ now t. if t == "tok" then some claims else none;
}

same_lem : (c : Claims) → is_same c ≡ true → claims ≡ c
same_lem c h =
    ap (λ s. record { sub = s; username = "ada"; email = "a@h"; exp = week; iat = 0 }) (sym id)
    ∙ ap (λ s. record { sub = c.sub; username = s; email = "a@h"; exp = week; iat = 0 }) (sym name)
    ∙ ap (λ s. record { sub = c.sub; username = c.username; email = s; exp = week; iat = 0 })
        (sym mail)
    ∙ ap (λ n. record { sub = c.sub; username = c.username; email = c.email; exp = n; iat = 0 })
        (sym until)
    ∙ ap (λ n. record { sub = c.sub; username = c.username; email = c.email; exp = c.exp; iat = n })
        (sym from)
  where
    id : c.sub ≡ "u1"
    id = (eq_iff c.sub "u1").0 (ground arith)

    name : c.username ≡ "ada"
    name = (eq_iff c.username "ada").0 (ground arith)

    mail : c.email ≡ "a@h"
    mail = (eq_iff c.email "a@h").0 (ground arith)

    until : c.exp ≡ week
    until = ground arith

    from : c.iat ≡ 0
    from = ground arith

signed_is_same : (c : Claims) (t : String) → lib.sign c ≡ ok t → (claims ≡ c) × ("tok" ≡ t)
signed_is_same c t h = elim (Bool-cases (is_same c)) [
  | inr other ↦ absurd (bad (rw other at h))
  | inl same ↦ (same_lem c same, ap token (rw same at h))
]
  where
    token : Result String → String
    token (ok s) = s
    token (err m) = t

    bad : ◌≢◌ {A = Result String} (err "no key") (ok t)
    bad e = cc

lib-IsSound : IsSound lib
unfolding split_spaces
lib-IsSound = record {
  parse_sign = λ now c t h fresh.
      ap (λ u. if u == "tok" then some claims else none) (sym (signed_is_same c t h).1)
      ∙ ap some (signed_is_same c t h).0;
  one_word = λ c t h. subst (λ u. split_spaces u ≡ u ∷ []) (signed_is_same c t h).1 refl;
  full_token = λ c t h. subst (λ u. truthy u ≡ true) (signed_is_same c t h).1 refl;
  matches_hash = λ salt p h e. ap (λ q. q == p) (sym (some-injective p h e)) ∙ eq_refl p;
}

abbrev draw : Draw
draw = record { id = "u1"; salt = "s" }

abbrev chance : Chance
chance = record { random36 = "0.abcdefghijkl"; now36 = "m1" }

abbrev ada : User
ada = record { id = "u1"; username = "ada"; email = "a@h" }

abbrev signed : AuthResponse
signed = record { token = "tok"; user = ada }

signed_in_is_known_example :
    finish (
      serve_me lib 5 (
        or_else "" (
          get_item "Authorization"
            (me_request lib 0 "https://h" chance
              (start [])
              signed
              draw
              "ada"
              "a@h"
              "secret"
              []
              5).headers)))
    ≡ ok ada
unfolding register find_email
signed_in_is_known_example =
    signed_in_is_known lib 0 "https://h" chance (start []) signed draw "ada" "a@h" "secret" [] 5
      lib-IsSound (inl refl) (omega arith)

abbrev is_email : String → Bool
is_email s = true

abbrev bind_error : Option Payload → String
bind_error body = "bad"

abbrev others : List Event
others =
    registers 1 (record { id = "u2"; salt = "t" }) (some (signup "bob" "b@h" "secret"))
    ∷ registers 2 (record { id = "u3"; salt = "t" }) (some (signup "ann" "a@h" "secret"))
    ∷ logs_in 3 (some (credentials "b@h" "wrong"))
    ∷ []

own_emails_example :
    IsKeyed (run lib is_email bind_error others [])
    × HaveOwnEmails (run lib is_email bind_error others [])
own_emails_example = own_emails lib is_email bind_error others

abbrev later_accounts : Accounts
later_accounts =
    met lib lib-IsSound is_email bind_error [] others 0 0 draw "ada" "a@h" "secret" "tok" signed

differ : (a b : String) → a == b ≡ false → a ≢ b
differ a b h e = let k : true ≡ false = sym ((eq_iff a b).1 e) ∙ h in cc

sign_up_then_in_example :
    handle_login lib is_email bind_error 0 (some (credentials "a@h" "secret")) later_accounts
    ≡ (success signed, later_accounts)
unfolding handle_register register find_email run rune_count
sign_up_then_in_example =
    sign_up_then_in lib lib-IsSound is_email bind_error [] others 0 0 draw "ada" "a@h" "secret"
      "tok" signed refl (differ "u2" "u1" refl, (differ "u3" "u1" refl, (tt, tt))) refl

abbrev account : (id : String) → Account
account id = record { id = id; username = id; email = "a@h"; password = id }

first_wins_example :
    let between =
      insert_all lib by_address 5
        (account "u3" ∷ [])
        (insert_user lib by_address 5 (account "u1") []).1 in
    (insert_user lib by_address 5 (account "u2") between
      ≡ (err "failed to create user account", between))
    × (Mongo.login lib by_address 5 "a@h" "secret" between
        ≡ login_found lib 5 "secret" (some (account "u1")))
unfolding value_at
first_wins_example =
    first_wins lib by_address by_address-IsUnique 5 (account "u1") (account "u2")
      (account "u3" ∷ []) "secret" [] refl refl
