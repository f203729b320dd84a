-- ===== src/Routes/Paths.antt =====
-- The paths of routes, as the documentation of the router for backend/cmd/server/main.go describes them.
use Prim.Native.Char.{Char, code}
use Prim.Native.String.{[], ◌∷◌}
use text.Mathlib.TextLemmas.{nil-append, cons-append}
use poll.Prelude.{
  String, ◌++◌, ◌≡◌, refl, Bool, true, false, not, ◌&&◌, ◌==◌, eqb, if◌then◌else◌, is_empty, List,
  arith,
}
use poll.Routes.{Route}

abbrev pub extend : Char → List String → List String
extend c List.[] = List.◌∷◌ (c ∷ []) List.[]
extend c (List.◌∷◌ x xs) = List.◌∷◌ (c ∷ x) xs

-- the segments of a path, which slashes divide
unfoldable pub segments : String → List String
segments [] = List.◌∷◌ [] List.[]
segments (c ∷ s) =
    let rest = segments s in if eqb (code c) 47 then List.◌∷◌ [] rest else extend c rest

-- A segment such as `:id` stands for any one segment that is not empty.
abbrev pub fits_segment : (pattern segment : String) → Bool
fits_segment [] s = is_empty s
fits_segment (c ∷ p) s = if eqb (code c) 58 then not (is_empty s) else (c ∷ p) == s

unfoldable pub fits_all : (patterns found : List String) → Bool
fits_all List.[] List.[] = true
fits_all (List.◌∷◌ p ps) (List.◌∷◌ s ss) = fits_segment p s && fits_all ps ss
fits_all _ _ = false

unfoldable pub fits : (method path : String) → Route → Bool
unfolding segments fits_all
fits method path r = r.method == method && fits_all (segments r.path) (segments path)

-- a text that is one segment
unfoldable pub is_segment : String → Bool
is_segment [] = true
is_segment (c ∷ s) = not (eqb (code c) 47) && is_segment s

pub segments_one : (s : String) → is_segment s ≡ true → segments s ≡ List.◌∷◌ s List.[]
unfolding segments is_segment
segments_one [] h = refl
segments_one (c ∷ s) h =
    let other : eqb (code c) 47 ≡ false = ground arith in
    let later : is_segment s ≡ true = ground arith in rw (other, segments_one s later) refl

pub segments_then :
    (s t : String) → is_segment s ≡ true → segments (s ++ ("/" ∷ t)) ≡ List.◌∷◌ s (segments t)
unfolding segments is_segment
segments_then [] t h = rw (nil-append ("/" ∷ t)) refl
segments_then (c ∷ s) t h =
    let other : eqb (code c) 47 ≡ false = ground arith in
    let later : is_segment s ≡ true = ground arith in
    rw (cons-append c s ("/" ∷ t)) (rw (other, segments_then s t later) refl)
