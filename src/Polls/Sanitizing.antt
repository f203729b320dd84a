-- ===== src/Polls/Sanitizing.antt =====
-- The loop of `CreatePoll` (backend/internal/services/poll_service.go) over texts that need no change.
use poll.Prelude.{
  ℕ, suc, String, ◌≡◌, ◌≢◌, refl, ap, ◌∙◌, false, List, [], ◌∷◌, map, arith, eq_iff, length, All,
  is_empty,
}
use poll.Models.{PollOption}
use poll.Api.Request.{Result, ok}
use poll.Create.Submit.{IsDistinct}
use poll.Voting.{is_member}
use poll.Polls.{Draw, new_option, add_option, keep_text, sanitize}
use poll.Polls.Space.{trim_space}

-- the options of a new poll, for texts that need no change
abbrev pub fresh_options : Draw → ℕ → List String → List PollOption
fresh_options draw n [] = []
fresh_options draw n (t ∷ ts) = new_option (draw.option_id n) t ∷ fresh_options draw (suc n) ts

pub length-fresh_options :
    (draw : Draw) (n : ℕ) (ts : List String) → length (fresh_options draw n ts) ≡ length ts
length-fresh_options draw n [] = refl
length-fresh_options draw n (t ∷ ts) = ap suc (length-fresh_options draw (suc n) ts)

-- a text that Go does not trim, and not empty
abbrev pub IsPlain : String → Type 0
IsPlain t = (trim_space t ≡ t) × (is_empty t ≡ false)

module _ (lower : String → String) (draw : Draw) where
  abbrev pub IsUnseen : List String → List String → Type 0
  IsUnseen seen ts = All (λ t. is_member (lower t) seen ≡ false) ts

  IsUnseen-cons :
      (t : String) (seen ts : List String)
      → IsUnseen seen ts
      → All (λ y. y ≢ lower t) (map lower ts)
      → IsUnseen (lower t ∷ seen) ts
  IsUnseen-cons t seen [] h d = tt
  IsUnseen-cons t seen (u ∷ ts) (h, hs) (d, ds) =
      (ground (arith, d, eq_iff (lower t) (lower u)), IsUnseen-cons t seen ts hs ds)

  keep_text_new :
      (n : ℕ) (seen : List String) (t : String) (rest : ℕ → List String → Result (List PollOption))
      → is_empty t ≡ false
      → is_member (lower t) seen ≡ false
      → keep_text lower draw n seen t rest
        ≡ add_option (new_option (draw.option_id n) t) (rest (suc n) (lower t ∷ seen))
  unfolding keep_text
  keep_text_new n seen t rest full new = rw (full, keep_text) (rw (new, keep_text) refl)

  -- The loop makes one option of each text, if the texts are plain and differ also when case is
  -- ignored.
  pub sanitize-plain :
      (n : ℕ) (seen ts : List String)
      → All IsPlain ts
      → IsDistinct (map lower ts)
      → IsUnseen seen ts
      → sanitize lower draw n seen ts ≡ ok (fresh_options draw n ts)
  unfolding sanitize
  sanitize-plain n seen [] p d h = refl
  sanitize-plain n seen (t ∷ ts) ((plain, full), ps) (d, ds) (h, hs) =
      ap (λ u. keep_text lower draw n seen u (λ m known. sanitize lower draw m known ts)) plain
      ∙ keep_text_new n seen t (λ m known. sanitize lower draw m known ts) full h
      ∙ ap (add_option (new_option (draw.option_id n) t))
          (sanitize-plain (suc n) (lower t ∷ seen) ts ps ds (IsUnseen-cons t seen ts hs d))
