-- ===== src/Polls/Mongo/Store.antt =====
-- A collection of polls as a map: one that answers as backend/internal/services/poll_service.go relies
-- on.
use poll.Prelude.{
  String, ◌≡◌, refl, ap, sym, ◌∙◌, Bool, Option, none, some, if◌then◌else◌, ◌==◌, eq_refl, Assoc,
  value_at, put, delete, value_at-put_self, value_at-delete, keep_if, List, [], ◌∷◌,
}
use mathlib.Core.Option.{none-ne-some}
use poll.Models.{Poll}
use poll.Api.Request.{ok}
use poll.Polls.Mongo.{Collection}
use poll.Polls.Mongo.Alike.{Answers, with_status, replaced, as_stored}

-- a document is put in place of one that is there
abbrev in_place : String → Option Poll → Assoc Poll → Assoc Poll
in_place id none m = m
in_place id (some p) m = put id p m

abbrev documents : Assoc Poll → List Poll
documents [] = []
documents (entry ∷ rest) = entry.1 ∷ documents rest

abbrev pub map_collection : Collection (Assoc Poll)
map_collection = record {
  find_one = value_at;
  find_by_creator = λ user m. ok (keep_if (λ (p : Poll). p.creator_id == user) (documents m));
  insert_one = λ p m. (none, put p.id (as_stored p) m);
  update_status = λ id b m. (none, in_place id (with_status b (value_at id m)) m);
  delete_one = λ id m. (none, delete id m);
  replace_one = λ id p m. (none, in_place id (replaced p (value_at id m)) m);
}

placed :
    (id : String) (r : Option Poll) (m : Assoc Poll)
    → (r ≡ none → value_at id m ≡ none)
    → value_at id (in_place id r m) ≡ r
placed id none m h = h refl
placed id (some p) m h = value_at-put_self id p m

with_status-none : (b : Bool) (o : Option Poll) → with_status b o ≡ none → o ≡ none
with_status-none b none e = refl
with_status-none b (some p) e = absurd (none-ne-some _ (sym e))

replaced-none : (p : Poll) (o : Option Poll) → replaced p o ≡ none → o ≡ none
replaced-none p none e = refl
replaced-none p (some q) e = absurd (none-ne-some _ (sym e))

pub map-Answers : Answers map_collection
map-Answers = record {
  update_answers = λ id b m. refl;
  find_updated =
      λ id b m. placed id (with_status b (value_at id m)) m (with_status-none b (value_at id m));
  delete_answers = λ id m. refl;
  find_deleted =
      λ id m. value_at-delete id id m ∙ ap (λ b. if b then none else value_at id m) (eq_refl id);
  find_replaced =
      λ id p m. placed id (replaced p (value_at id m)) m (replaced-none p (value_at id m));
}
