-- ===== src/App/Share.antt =====
-- The dialogue of frontend/src/components/ShareModal.jsx, and what its links open.
use Prim.Native.Char.{Char, code}
use Prim.Native.String.{[], ◌∷◌}
use poll.Prelude.{
  String, ◌++◌, ◌≡◌, refl, Bool, true, false, not, ◌&&◌, Option, some, List, arith, eqb,
  if◌then◌else◌, truthy, expand,
}
use poll.App.Params.{Params, get_param}
use poll.App.Router.{App, sync_state_from_url, navigate}
use poll.App.Laws.{addressed}

-- The queries of the links; the identifier is put in as it is.
abbrev pub vote_query : String → String
vote_query poll_id = "?view=vote&id=" ++ poll_id

abbrev pub results_query : String → String
results_query poll_id = "?view=results&id=" ++ poll_id

-- `origin` is `window.location.origin`.
unfoldable pub vote_url : (origin poll_id : String) → String
vote_url origin poll_id = origin ++ ("/" ++ vote_query poll_id)

unfoldable pub results_url : (origin poll_id : String) → String
results_url origin poll_id = origin ++ ("/" ++ results_query poll_id)

-- `copyToClipboard` after its wait, and the timeout that it sets: is the link shown as copied?
pub data Copying : Type 0 where
  written write_failed timed_out : Copying

unfoldable pub copied : Copying → Bool → Bool
copied written before = true
copied write_failed before = before
copied timed_out before = false

-- The buttons that open a page close the dialogue first.
unfoldable pub open_page : (view poll_id : String) → (close : App → App) → App → App
open_page view poll_id close a = navigate view (some poll_id) (close a)

-- `new URLSearchParams(search)`: the browser's. The text is taken apart at `&` and each piece at its
-- first `=`; empty pieces are skipped.
abbrev grow : Char → List String → List String
grow c List.[] = List.◌∷◌ (c ∷ []) List.[]
grow c (List.◌∷◌ x xs) = List.◌∷◌ (c ∷ x) xs

pieces : String → List String
pieces [] = List.◌∷◌ [] List.[]
pieces (c ∷ s) = let rest = pieces s in if eqb (code c) b'&' then List.◌∷◌ [] rest else grow c rest

cut : String → String × String
cut [] = ([], [])
cut (c ∷ s) = let (k, v) = cut s in if eqb (code c) b'=' then ([], s) else (c ∷ k, v)

skip_mark : String → String
skip_mark [] = []
skip_mark (c ∷ s) = if eqb (code c) b'?' then s else c ∷ s

module _ (decode : String → String) where
  pairs : List String → Params
  pairs List.[] = List.[]
  pairs (List.◌∷◌ p ps) =
      let rest = pairs ps in
      let (k, v) = cut p in if truthy p then List.◌∷◌ (decode k, decode v) rest else rest

  unfoldable pub parse_query : String → Params
  unfolding pairs pieces cut skip_mark
  parse_query search = pairs (pieces (skip_mark search))

-- a text that a query holds as it is, as the identifiers of polls are
abbrev pub is_plain : String → Bool
is_plain [] = true
is_plain (c ∷ s) =
    not (eqb (code c) b'&')
    && not (eqb (code c) b'+')
    && not (eqb (code c) b'%')
    && not (eqb (code c) b'#')
    && is_plain s

pieces-plain : (s : String) → is_plain s ≡ true → pieces s ≡ List.◌∷◌ s List.[]
unfolding pieces
pieces-plain [] h = refl
pieces-plain (c ∷ s) h = ground (arith, pieces-plain s)

-- the address that a link leads to
abbrev pub opened : Params → App → String × Option String
opened q a = addressed (record a { query = q })

module _ (decode : String → String) (id : String) where
  -- Where decoding leaves a text without `&`, `+`, `%` and `#` as it is, a shared link of a poll with
  -- such an identifier opens the voting page, or the results, of that poll.
  pub share_links :
      (a : App)
      → ((s : String) → is_plain s ≡ true → decode s ≡ s)
      → is_plain id ≡ true
      → truthy id ≡ true
      → (opened (parse_query decode (vote_query id)) a ≡ ("vote", some id))
        × (opened (parse_query decode (results_query id)) a ≡ ("results", some id))
  unfolding parse_query sync_state_from_url get_param
  share_links a decodes plain some_id = (
    rw (expand "?view=vote&id=" id) (
        rw (pieces-plain id plain) (
          rw (decodes "view" refl, decodes "vote" refl, decodes "id" refl, decodes id plain)
            (rw some_id))),
    rw (expand "?view=results&id=" id) (
        rw (pieces-plain id plain) (
          rw (decodes "view" refl, decodes "results" refl, decodes "id" refl, decodes id plain)
            (rw some_id))),
  )
