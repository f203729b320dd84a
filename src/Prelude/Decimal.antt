-- ===== src/Prelude/Decimal.antt =====
-- A number as JavaScript writes it in a template: decimal digits.
use Prim.Native.Char.{Char}
use Prim.Native.String.{String, [], ◌∷◌}
use Prim.Native.Nat.{ℕ, zero, suc, ◌+◌, ◌/◌, ◌%◌, ◌<◌}
use mathlib.Core.Path.{◌≡◌, refl}
use mathlib.Core.Logic.{inl, inr}
use native.Mathlib.Omega.{arith}
use poll.Prelude.Tests.{ltb, if◌then◌else◌, Bool-cases}

abbrev digit : ℕ → Char
digit zero = "0"
digit (suc zero) = "1"
digit (suc (suc zero)) = "2"
digit (suc (suc (suc zero))) = "3"
digit (suc (suc (suc (suc zero)))) = "4"
digit (suc (suc (suc (suc (suc zero))))) = "5"
digit (suc (suc (suc (suc (suc (suc zero)))))) = "6"
digit (suc (suc (suc (suc (suc (suc (suc zero))))))) = "7"
digit (suc (suc (suc (suc (suc (suc (suc (suc zero)))))))) = "8"
digit _ = "9"

-- the digits of `n` before `rest`, on fuel: a round takes the last digit off
unfoldable pub show_from : ℕ → ℕ → String → String
show_from zero n rest = rest
show_from (suc fuel) n rest =
    let longer = show_from fuel (n / 10) (digit (n % 10) ∷ rest) in
    if ltb n 10 then digit (n % 10) ∷ rest else longer

unfoldable pub show : ℕ → String
unfolding show_from
show n = show_from (n + 1) n []

-- Any fuel above the number gives the same digits.
show_from-fuel :
    (f g n : ℕ) (rest : String) → n < f → n < g → show_from f n rest ≡ show_from g n rest
unfolding show_from
show_from-fuel zero g n rest h k = absurd (omega arith)
show_from-fuel (suc f) zero n rest h k = absurd (omega arith)
show_from-fuel (suc f) (suc g) n rest h k = elim (Bool-cases (ltb n 10)) [
  | inl small ↦ rw small refl
  | inr big ↦
      rw big (show_from-fuel f g (n / 10) (digit (n % 10) ∷ rest) (ground arith) (ground arith))
]
