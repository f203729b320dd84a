-- ===== src/Prelude/Trim.antt =====
-- What `trim` leaves has no white space at its ends.
use Prim.Native.Char.{Char}
use Prim.Native.String.{String, [], ◌∷◌}
use mathlib.Core.Path.{◌≡◌, refl, ap, ◌∙◌}
use mathlib.Core.Logic.{inl, inr}
use mathlib.Core.Bool.{Bool, true, not, ◌&&◌}
use native.Mathlib.Omega.{arith}
use poll.Prelude.Tests.{Bool-cases}
use poll.Prelude.Text.{is_space, is_empty, trim_start, drop_end, trim}

abbrev pub starts_plain : String → Bool
starts_plain [] = true
starts_plain (c ∷ s) = not (is_space c)

trim_start-plain : (s : String) → starts_plain (trim_start s) ≡ true
unfolding trim_start
trim_start-plain [] = refl
trim_start-plain (c ∷ s) = ground (arith, trim_start-plain s)

trim_start_of_plain : (s : String) → starts_plain s ≡ true → trim_start s ≡ s
unfolding trim_start
trim_start_of_plain [] h = refl
trim_start_of_plain (c ∷ s) h = ground arith

drop_end-plain :
    (test : Char → Bool) (s : String)
    → starts_plain s ≡ true
    → starts_plain (drop_end test s) ≡ true
unfolding drop_end
drop_end-plain test [] h = refl
drop_end-plain test (c ∷ s) h = elim (Bool-cases (test c && is_empty (drop_end test s))) [
  | inl e ↦ rw e
  | inr e ↦ rw e h
]

drop_end_idem :
    (test : Char → Bool) (s : String) → drop_end test (drop_end test s) ≡ drop_end test s
unfolding drop_end
drop_end_idem test [] = refl
drop_end_idem test (c ∷ s) = ground (arith, drop_end_idem test s)

pub starts_plain-trim : (s : String) → starts_plain (trim s) ≡ true
unfolding trim
starts_plain-trim s = drop_end-plain is_space (trim_start s) (trim_start-plain s)

pub drop_end-trim : (s : String) → drop_end is_space (trim s) ≡ trim s
unfolding trim
drop_end-trim s = drop_end_idem is_space (trim_start s)

pub trim_idem : (s : String) → trim (trim s) ≡ trim s
unfolding trim
trim_idem s = ap (drop_end is_space) (trim_start_of_plain _ (starts_plain-trim s)) ∙ drop_end-trim s
