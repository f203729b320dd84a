-- ===== src/Polls/Portable.antt =====
-- What the fields of the form (frontend/src/pages/CreatePoll.jsx) must be like for the service
-- (backend/internal/services/poll_service.go) to take them as the form sends them.
use mathlib.Core.Path.{subst}
use poll.Prelude.{
  ℕ, ◌≤◌, String, ◌≡◌, refl, sym, Bool, true, false, List, [], ◌∷◌, map, arith, All, is_empty, leb,
  ◌&&◌, truthy, trim, trim_start, drop_end, is_space, utf16_length,
}
use Prim.Native.Char.{Char}
use poll.Models.{Poll}
use poll.Api.Request.{ok}
use poll.Create.{Form, clean_options}
use poll.Create.Options.{HasRows}
use poll.Create.Submit.{
  IsDistinct, IsAcceptable, IsClean, clean_options-IsClean, clean_options-length,
}
use poll.Polls.{Draw, sanitize, new_poll_of}
use poll.Polls.Space.{trim_space-trim, trim_space_clean, has_nel, rune_count}
use poll.Polls.Binding.{CreatePollRequest, are_short, is_valid}
use poll.Polls.Sanitizing.{fresh_options, IsPlain, IsUnseen, sanitize-plain}

-- Lengths: a trimmed text is not longer, and there are no more characters than UTF-16 units.
rune_count-trim_start : (s : String) → rune_count (trim_start s) ≤ rune_count s
unfolding trim_start rune_count
rune_count-trim_start String.[] = omega arith
rune_count-trim_start (String.◌∷◌ c s) = ground (arith, rune_count-trim_start s)

rune_count-drop_end :
    (test : Char → Bool) (s : String) → rune_count (drop_end test s) ≤ rune_count s
unfolding drop_end rune_count
rune_count-drop_end test String.[] = omega arith
rune_count-drop_end test (String.◌∷◌ c s) = ground (arith, rune_count-drop_end test s)

rune_count-utf16 : (s : String) → rune_count s ≤ utf16_length s
unfolding rune_count utf16_length
rune_count-utf16 String.[] = omega arith
rune_count-utf16 (String.◌∷◌ c s) = ground (arith, rune_count-utf16 s)

rune_count-trim : (s : String) (n : ℕ) → utf16_length s ≤ n → rune_count (trim s) ≤ n
unfolding trim
rune_count-trim s n h = omega (
  arith,
  rune_count-drop_end is_space (trim_start s),
  rune_count-trim_start s,
  rune_count-utf16 s,
)

rune_count-full : (s : String) → truthy s ≡ true → 1 ≤ rune_count s
unfolding rune_count
rune_count-full String.[] h = cc
rune_count-full (String.◌∷◌ c s) h = omega arith

-- What a text needs that both languages read alike: no U+0085 in an option, and the same lower case in
-- Go as in JavaScript.
pub record IsPortable (lower go_lower : String → String) (o : String) : Type 0 where
  pub no_nel : has_nel o ≡ false
  pub same_case : go_lower o ≡ lower o

-- each option has at most 200 characters
abbrev pub fit : List String → Bool
fit [] = true
fit (o ∷ os) = leb (rune_count o) 200 && fit os

-- What the form sends, as the service reads it.
abbrev pub request_of : Form → CreatePollRequest
request_of f = record {
  title = trim f.title;
  description = trim f.description;
  options = clean_options f.options;
}

-- What the fields need beyond what the form asks: the inputs keep their `maxLength`, the title has
-- three characters (and not just three UTF-16 units), and the texts are portable.
pub record IsPostable (lower go_lower : String → String) (f : Form) : Type 0 where
  pub rows : HasRows f
  pub title_max : utf16_length f.title ≤ 250
  pub description_max : utf16_length f.description ≤ 500
  pub title_min : 3 ≤ rune_count (trim f.title)
  pub title_nel : has_nel (trim f.title) ≡ false
  pub description_nel : has_nel (trim f.description) ≡ false
  pub portable : All (IsPortable lower go_lower) (clean_options f.options)

module _ (lower go_lower : String → String) where
  are_short-fit : (os : List String) → All IsClean os → are_short os ≡ fit os
  are_short-fit [] c = refl
  are_short-fit (o ∷ os) ((clean, full), cs) =
      ground (arith, rune_count-full o full, are_short-fit os cs)

  full_not_empty : (o : String) → truthy o ≡ true → is_empty o ≡ false
  full_not_empty String.[] h = cc
  full_not_empty (String.◌∷◌ c o) h = refl

  All-IsPlain :
      (os : List String) → All (IsPortable lower go_lower) os → All IsClean os → All IsPlain os
  All-IsPlain [] h c = tt
  All-IsPlain (o ∷ os) (h, hs) ((clean, full), cs) =
      ((trim_space_clean o clean h.no_nel, full_not_empty o full), All-IsPlain os hs cs)

  same_map :
      (os : List String) → All (IsPortable lower go_lower) os → map go_lower os ≡ map lower os
  same_map [] h = refl
  same_map (o ∷ os) (h, hs) = ground (arith, h.same_case, same_map os hs)

  pub valid_lem :
      (f : Form)
      → IsPostable lower go_lower f
      → IsAcceptable lower f
      → is_valid (request_of f) ≡ fit (clean_options f.options)
  unfolding is_valid
  valid_lem f h a = ground (
    arith,
    h.title_min,
    rune_count-trim f.title 250 h.title_max,
    rune_count-trim f.description 500 h.description_max,
    a.enough,
    clean_options-length f.options,
    h.rows,
    are_short-fit (clean_options f.options) (clean_options-IsClean f.options),
  )

  -- the poll that the service makes of a form
  abbrev pub posted : Draw → (creator_id : String) → Form → Poll
  posted draw creator_id f = record {
    id = draw.poll_id;
    title = trim f.title;
    description = trim f.description;
    creator_id = creator_id;
    options = fresh_options draw 0 (clean_options f.options);
    is_active = true;
    total_votes = 0;
  }

  pub new_poll_lem :
      (draw : Draw) (creator_id : String) (f : Form)
      → IsPostable lower go_lower f
      → new_poll_of draw creator_id (request_of f) (fresh_options draw 0 (clean_options f.options))
        ≡ posted draw creator_id f
  new_poll_lem draw creator_id f h =
      rw (trim_space-trim f.title h.title_nel, trim_space-trim f.description h.description_nel) refl

  IsUnseen-start : (draw : Draw) (ts : List String) → IsUnseen go_lower draw [] ts
  IsUnseen-start draw [] = tt
  IsUnseen-start draw (t ∷ ts) = (refl, IsUnseen-start draw ts)

  pub sanitize_lem :
      (draw : Draw) (f : Form)
      → IsPostable lower go_lower f
      → IsAcceptable lower f
      → sanitize go_lower draw 0 [] (clean_options f.options)
        ≡ ok (fresh_options draw 0 (clean_options f.options))
  sanitize_lem draw f h a =
      let os = clean_options f.options in
      sanitize-plain go_lower draw 0 [] os
        (All-IsPlain os h.portable (clean_options-IsClean f.options))
        (subst IsDistinct (sym (same_map os h.portable)) a.distinct) (IsUnseen-start draw os)
