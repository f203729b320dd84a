-- ===== src/Prelude/Text.antt =====
-- The text functions of JavaScript that the client calls, over native texts. A text stands for a
-- string without lone surrogates; `utf16_length` is `s.length`.
use Prim.Native.Nat.{ℕ, zero, suc, ◌+◌}
use Prim.Native.Char.{Char, code}
use Prim.Native.String.{String, [], ◌∷◌, ◌++◌}
use mathlib.Core.Path.{◌≡◌, refl, ap, ◌∙◌}
use mathlib.Core.Bool.{Bool, true, false, ◌&&◌, ◌||◌}
use mathlib.Core.Option.{Option, none, some}
use native.Mathlib.Omega.{arith}
use text.Mathlib.TextLemmas.{nil-append, cons-append}
use poll.Prelude.Tests.{ltb, leb, eqb, eqb_iff, if◌then◌else◌, is_some}

-- White space and line terminators of ECMAScript: what `trim` removes.
unfoldable pub is_space : Char → Bool
is_space ch =
    let c = code ch in
    (leb 9 c && leb c 13)
    || eqb c 32
    || eqb c 0xa0
    || eqb c 0x1680
    || (leb 0x2000 c && leb c 0x200a)
    || eqb c 0x2028
    || eqb c 0x2029
    || eqb c 0x202f
    || eqb c 0x205f
    || eqb c 0x3000
    || eqb c 0xfeff

unfoldable pub utf16_length : String → ℕ
utf16_length [] = 0
utf16_length (c ∷ s) = (if ltb (code c) 0x10000 then 1 else 2) + utf16_length s

abbrev pub is_empty : String → Bool
is_empty [] = true
is_empty (c ∷ s) = false

-- A text as a condition: only the empty one is false.
abbrev pub truthy : String → Bool
truthy [] = false
truthy (c ∷ s) = true

unfoldable pub trim_start : String → String
trim_start [] = []
trim_start (c ∷ s) = let rest = trim_start s in if is_space c then rest else c ∷ s

-- The longest prefix that does not end in a character of the class.
unfoldable pub drop_end : (Char → Bool) → String → String
drop_end test [] = []
drop_end test (c ∷ s) =
    let rest = drop_end test s in if test c && is_empty rest then [] else c ∷ rest

unfoldable pub trim : String → String
unfolding trim_start drop_end
trim s = drop_end is_space (trim_start s)

-- What follows the prefix `p` in a text, if the text begins with it.
unfoldable pub strip_prefix : String → String → Option String
strip_prefix [] s = some s
strip_prefix (p ∷ ps) [] = none
strip_prefix (p ∷ ps) (c ∷ s) =
    let rest = strip_prefix ps s in if eqb (code p) (code c) then rest else none

-- `s.startsWith(p)`
unfoldable pub starts_with : String → String → Bool
unfolding strip_prefix
starts_with s p = is_some (strip_prefix p s)

-- `s.substring(from, to)` for `from ≤ to`, over a text of one code unit to a character.
unfoldable pub substring : String → ℕ → ℕ → String
substring [] from to = []
substring (c ∷ s) from zero = []
substring (c ∷ s) zero (suc to) = c ∷ substring s zero to
substring (c ∷ s) (suc from) (suc to) = substring s from to

pub strip_prefix-append : (p s : String) → strip_prefix p (p ++ s) ≡ some s
unfolding strip_prefix
strip_prefix-append [] s = rw nil-append
strip_prefix-append (c ∷ p) s =
    rw cons-append (rw ((eqb_iff (code c) (code c)).1 refl) (strip_prefix-append p s))

-- `m || fallback`
abbrev pub or_text : String → String → String
or_text m fallback = if truthy m then m else fallback

pub or_text-truthy : (m f : String) → truthy f ≡ true → truthy (or_text m f) ≡ true
or_text-truthy m f h = ground arith

-- A text in front of another; a literal in front computes.
abbrev pub push : String → String → String
push [] s = s
push (c ∷ p) s = c ∷ push p s

pub expand : (p s : String) → p ++ s ≡ push p s
expand [] s = nil-append s
expand (c ∷ p) s = cons-append c p s ∙ ap (λ t. c ∷ t) (expand p s)
