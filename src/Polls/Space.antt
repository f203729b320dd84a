-- ===== src/Polls/Space.antt =====
-- `strings.TrimSpace` of Go beside `trim` of JavaScript: Go takes U+0085 for white space and not
-- U+FEFF, and otherwise the two agree.
use Prim.Native.Char.{Char, code}
use Prim.Native.String.{[], ◌∷◌}
use poll.Prelude.{
  ℕ, suc, String, ◌≡◌, refl, ap, sym, ◌∙◌, Bool, true, false, ◌&&◌, ◌||◌, arith, eqb, leb,
  if◌then◌else◌, is_empty, truthy, is_space, drop_end, trim, starts_plain, starts_plain-trim,
  drop_end-trim, inl, inr, Bool-cases,
}

-- `unicode.IsSpace`
unfoldable pub is_go_space : Char → Bool
is_go_space ch =
    let c = code ch in
    (leb 9 c && leb c 13)
    || eqb c 32
    || eqb c 0x85
    || eqb c 0xa0
    || eqb c 0x1680
    || (leb 0x2000 c && leb c 0x200a)
    || eqb c 0x2028
    || eqb c 0x2029
    || eqb c 0x202f
    || eqb c 0x205f
    || eqb c 0x3000

-- the text from its first character that is not of the class
unfoldable pub drop_start : (Char → Bool) → String → String
drop_start test [] = []
drop_start test (c ∷ s) = let rest = drop_start test s in if test c then rest else c ∷ s

unfoldable pub trim_space : String → String
unfolding drop_start
trim_space s = drop_end is_go_space (drop_start is_go_space s)

-- the number of characters, `utf8.RuneCountInString`
unfoldable pub rune_count : String → ℕ
rune_count [] = 0
rune_count (c ∷ s) = suc (rune_count s)

-- does the text hold the control character NEL, U+0085?
abbrev pub has_nel : String → Bool
has_nel [] = false
has_nel (c ∷ s) = eqb (code c) 0x85 || has_nel s

go_space_js : (c : Char) → eqb (code c) 0x85 ≡ false → is_go_space c ≡ true → is_space c ≡ true
unfolding is_go_space is_space
go_space_js c h g = ground arith

abbrev tail : String → String
tail [] = []
tail (c ∷ s) = s

-- the end of a text that JavaScript leaves alone
ends_plain :
    (c : Char) (s : String)
    → drop_end is_space (c ∷ s) ≡ c ∷ s
    → (drop_end is_space s ≡ s) × (is_space c && is_empty s ≡ false)
unfolding drop_end
ends_plain c s e = elim (Bool-cases (is_space c && is_empty (drop_end is_space s))) [
  | inl b ↦ let h : false ≡ true = ap truthy (rw b at e) in cc
  | inr b ↦
      let same : drop_end is_space s ≡ s = ap tail (rw b at e) in
      (same, ap (λ t. is_space c && is_empty t) (sym same) ∙ b)
]

drop_end_go :
    (s : String) → has_nel s ≡ false → drop_end is_space s ≡ s → drop_end is_go_space s ≡ s
unfolding drop_end
drop_end_go [] h e = refl
drop_end_go (c ∷ s) h e =
    let (rest, last) = ends_plain c s e in
    ground (arith, drop_end_go s (ground arith) rest, go_space_js c, last)

drop_start_go :
    (s : String) → has_nel s ≡ false → starts_plain s ≡ true → drop_start is_go_space s ≡ s
unfolding drop_start
drop_start_go [] h e = refl
drop_start_go (c ∷ s) h e = ground (arith, go_space_js c)

-- Go takes nothing more from a text that JavaScript has trimmed, unless it holds U+0085.
pub trim_space-trim : (s : String) → has_nel (trim s) ≡ false → trim_space (trim s) ≡ trim s
unfolding trim_space
trim_space-trim s h =
    ap (drop_end is_go_space) (drop_start_go (trim s) h (starts_plain-trim s))
    ∙ drop_end_go (trim s) h (drop_end-trim s)

pub trim_space_clean : (s : String) → trim s ≡ s → has_nel s ≡ false → trim_space s ≡ s
trim_space_clean s clean h =
    sym (ap trim_space clean) ∙ trim_space-trim s (ap has_nel clean ∙ h) ∙ clean
