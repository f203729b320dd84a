-- ===== src/Polls/Tests.antt =====
-- The theorems on polls (backend/internal/services/poll_service.go) at an input.
use poll.Prelude.{
  ℕ, ◌*◌, String, ◌≡◌, ◌≢◌, refl, ap, sym, ◌∙◌, true, false, Bool, Option, none, some, [], ◌∷◌,
  List, ◌==◌, trim, is_space, utf16_length, if◌then◌else◌, arith, value_at, All, eqb, eq_iff,
}
use poll.Models.{Number, Poll, PollOption}
use poll.Api.Request.{Payload, new_poll, poll_status, success}
use poll.Create.{Form, start, clean_options}
use poll.Create.Submit.{IsAcceptable, call_for}
use poll.Voting.{Server, voter_key}
use poll.Voting.Tally.{votes_for}
use poll.Voting.Casting.{casting, is_ok, counts}
use poll.Voting.Voters.{casts, writes}
use poll.Polls.{Draw}
use poll.Polls.Space.{rune_count}
use poll.Polls.Handler.{handle_create_poll}
use poll.Polls.Portable.{IsPostable}
use poll.Polls.Posting.{made, stored, form_posts}
use poll.Polls.Core.{core, core_at}
use poll.Polls.Requests.{Event, creates, opens, lists, sets, deletes, voting, IsForeign, run}
use poll.Polls.Owner.{poll_belongs}
use poll.Polls.Mongo.{Depot, set_poll_status, replace_votes}
use poll.Polls.Mongo.Alike as Asked
use poll.Polls.Mongo.Alike.{mongo_answers, memory_answers}
use poll.Polls.Mongo.Agreement.{mongo_alike}
use poll.Polls.Mongo.Races.{status_shown, status_stored, sync_reverts}
use poll.Polls.Mongo.Store.{map_collection, map-Answers}
use poll.Polls.Boxes.{HoldsBox, box_accepts}
use poll.Polls.Refinement.{box_later, server_later, polls_refine}
use poll.Polls.Closing.{after_closing, closed_refuses}

abbrev percent : ℕ → ℕ → Number
percent n total = record { numerator = 100 * n; denominator = total }

abbrev any_id : String → Bool
any_id s = true

abbrev same : String → String
same s = s

abbrev bind_error : Option Payload → String
bind_error body = "bad"

abbrev draw : Draw
draw = record { poll_id = "8"; spare_creator = "x"; option_id = λ n. if eqb n 0 then "a" else "b" }

abbrev lunch : Form
lunch = record start { title = " Lunch "; options = " Soup " ∷ "Rice" ∷ "" ∷ [] }

lunch-IsAcceptable : IsAcceptable same lunch
unfolding clean_options trim is_space utf16_length
lunch-IsAcceptable = record {
  long_title = omega arith;
  enough = omega arith;
  distinct = ((λ e. let h : true ≡ false = ap (λ s. s == "Rice") e in cc, tt), (tt, tt));
}

lunch-IsPostable : IsPostable same same lunch
unfolding clean_options trim is_space utf16_length rune_count
lunch-IsPostable = record {
  rows = (omega arith, omega arith);
  title_max = omega arith;
  description_max = omega arith;
  title_min = omega arith;
  title_nel = refl;
  description_nel = refl;
  portable = (
    record { no_nel = refl; same_case = refl },
    (record { no_nel = refl; same_case = refl }, tt),
  );
}

abbrev drinks : Poll
drinks = record {
  id = "7";
  title = "Drinks";
  description = "";
  creator_id = "u1";
  options = [];
  is_active = true;
  total_votes = 0;
}

abbrev server : Server
server = record {
  mem_polls = ("7", drinks) ∷ [];
  mem_votes = [];
  mem_voters = [];
  subscribers = [];
  syncs = [];
}

form_posts_example :
    handle_create_poll percent any_id same bind_error draw
      (some "u2")
      (call_for same lunch).1.body
      server
    ≡ (
      success (made percent any_id same same bind_error draw "u2" lunch server),
      stored percent any_id same same bind_error draw "u2" lunch server,
    )
unfolding clean_options trim is_space rune_count
form_posts_example =
    form_posts percent any_id same same bind_error draw "u2" lunch server lunch-IsPostable
      lunch-IsAcceptable refl

abbrev others : List Event
others =
    creates draw (some "u2") (some (new_poll "Lunch" "" ("Soup" ∷ "Rice" ∷ [])))
    ∷ sets "7" (some "u2") (some (poll_status true))
    ∷ deletes "7" (some "u2")
    ∷ deletes "7" none
    ∷ lists (some "u1")
    ∷ voting (casts "7" "a" "fp" "::1")
    ∷ opens "7"
    ∷ []

differ : (a b : String) → a == b ≡ false → a ≢ b
differ a b h e = let k : true ≡ false = sym ((eq_iff a b).1 e) ∙ h in cc

others-IsForeign : All (IsForeign percent any_id same bind_error "7" "u1") others
others-IsForeign = (differ "8" "7" refl, (theirs, (theirs, ((λ e. cc), (tt, (tt, (tt, tt)))))))
  where
    or_empty : Option String → String
    or_empty none = ""
    or_empty (some s) = s

    theirs : ◌≢◌ {A = Option String} (some "u2") (some "u1")
    theirs e = differ "u2" "u1" refl (ap or_empty e)

poll_belongs_example :
    core_at "7" (run percent any_id same bind_error others server).mem_polls ≡ some (core drinks)
unfolding value_at
poll_belongs_example =
    poll_belongs percent any_id same bind_error "7" drinks others server refl others-IsForeign

abbrev closed : Server
closed = after_closing percent any_id same bind_error "7" drinks others server

closed_refuses_example :
    (is_ok (casting percent any_id "7" "a" "fp" "::1" closed).0 ≡ false)
    × (counts (casting percent any_id "7" "a" "fp" "::1" closed).1 ≡ counts closed)
unfolding value_at
closed_refuses_example =
    closed_refuses percent any_id same bind_error "7" drinks others server "a" "fp" "::1" refl
      others-IsForeign

-- an identifier of MongoDB is its own text
abbrev object_id : String → Option String
object_id s = some s

abbrev empty_server : Server
empty_server = record {
  mem_polls = [];
  mem_votes = [];
  mem_voters = [];
  subscribers = [];
  syncs = [];
}

abbrev depot : Depot (List (String × Poll))
depot = record { memory = empty_server; store = ("7", drinks) ∷ [] }

abbrev asked : List Asked.Event
asked =
    Asked.looks
    ∷ Asked.sets "u1" false
    ∷ Asked.syncs [] 3
    ∷ Asked.deletes "u2"
    ∷ Asked.deletes "u1"
    ∷ Asked.looks
    ∷ []

mongo_alike_example :
    mongo_answers map_collection percent object_id "0" "7" asked depot
    ≡ memory_answers percent any_id "7" asked
        (record empty_server { mem_polls = ("7", drinks) ∷ [] })
mongo_alike_example =
    mongo_alike map_collection map-Answers percent object_id "0" any_id "7" "7" refl refl asked
      depot (record empty_server { mem_polls = ("7", drinks) ∷ [] }) refl

sync_reverts_example :
    let (a, y) = set_poll_status map_collection percent object_id "0" "7" "u1" false depot in
    let z = replace_votes map_collection percent object_id "0" "7" [] 3 drinks y in
    (status_shown a ≡ some false) × (status_stored (value_at "7" z.store) ≡ some true)
unfolding value_at
sync_reverts_example =
    sync_reverts map_collection map-Answers percent object_id "0" "7" "7" false [] 3 drinks depot
      refl refl

abbrev option_of : String → PollOption
option_of id = record { id = id; text = id; votes = 0; percentage = percent 0 1 }

abbrev teas : Poll
teas = record drinks { options = option_of "a" ∷ option_of "b" ∷ [] }

abbrev tea_server : Server
tea_server = record server { mem_polls = ("7", teas) ∷ [] }

-- The owner closes the poll and opens it again, others vote, and at last the owner deletes it.
abbrev tea_time : List Event
tea_time =
    voting (casts "7" "b" "other" "::1")
    ∷ voting (writes 0)
    ∷ sets "7" (some "u1") (some (poll_status false))
    ∷ voting (casts "7" "b" "third" "::1")
    ∷ sets "7" (some "u1") (some (poll_status true))
    ∷ voting (casts "7" "a" "third" "::1")
    ∷ deletes "7" (some "u2")
    ∷ deletes "7" (some "u1")
    ∷ []

polls_refine_example :
    HoldsBox "7" "b"
      (votes_for "7" "b" teas tea_server)
      (box_later percent any_id same bind_error "7" "b" teas tea_server "a" "fp" "::1" tea_time)
      (server_later percent any_id same bind_error "7" "b" teas tea_server "a" "fp" "::1" tea_time)
    × (is_ok
          (casting percent any_id "7" "a" "fourth" "::1" (
            server_later percent any_id same bind_error "7" "b" teas tea_server "a" "fp" "::1"
              tea_time)).0
        ≡ box_accepts "a" (voter_key "fourth" "::1") (
            box_later percent any_id same bind_error "7" "b" teas tea_server "a" "fp" "::1"
              tea_time))
unfolding value_at
polls_refine_example =
    polls_refine percent any_id same bind_error "7" "b" teas tea_server "a" "fp" "::1" tea_time "a"
      "fourth" "::1" refl refl refl (tt, (tt, (tt, (tt, (tt, (tt, (tt, (tt, tt))))))))
