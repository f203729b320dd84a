-- ===== src/Prelude/Maps.antt =====
-- Maps with text keys, as lists of pairs.
use Prim.Native.String.{String}
use mathlib.Core.Path.{◌≡◌, refl}
use mathlib.Core.Option.{Option, none, some}
use mathlib.Core.Bool.{true, false}
use mathlib.Core.List.{List, [], ◌∷◌}
use native.Mathlib.Omega.{arith}
use text.Mathlib.Text.{◌==◌}
use text.Mathlib.TextEquality.{eq_iff}
use poll.Prelude.Tests.{if◌then◌else◌}

abbrev pub Assoc {ℓ} : Type ℓ → Type ℓ
Assoc A = List (String × A)

module _ {ℓ} {A : Type ℓ} where
  unfoldable pub value_at : String → Assoc A → Option A
  value_at key [] = none
  value_at key (entry ∷ rest) = if entry.0 == key then some entry.1 else value_at key rest

  -- the entry of the key is replaced, or added at the end
  unfoldable pub put : String → A → Assoc A → Assoc A
  put key new [] = (key, new) ∷ []
  put key new (entry ∷ rest) =
      let later = put key new rest in if entry.0 == key then (key, new) ∷ rest else entry ∷ later

  -- the entries of the key are taken out
  unfoldable pub delete : String → Assoc A → Assoc A
  delete key [] = []
  delete key (entry ∷ rest) =
      let kept = delete key rest in if entry.0 == key then kept else entry ∷ kept

  pub value_at-delete :
      (key other : String) (rest : Assoc A)
      → value_at other (delete key rest) ≡ (if key == other then none else value_at other rest)
  unfolding value_at delete
  value_at-delete key other [] = ground arith
  value_at-delete key other (entry ∷ rest) = ground (
    arith,
    value_at-delete key other rest,
    eq_iff entry.0 key,
    eq_iff entry.0 other,
    eq_iff key other,
  )

  pub value_at-put :
      (key other : String) (new : A) (rest : Assoc A)
      → value_at other (put key new rest) ≡ (if key == other then some new else value_at other rest)
  unfolding value_at put
  value_at-put key other new [] = refl
  value_at-put key other new (entry ∷ rest) = ground (
    arith,
    value_at-put key other new rest,
    eq_iff entry.0 key,
    eq_iff entry.0 other,
    eq_iff key other,
  )

  pub value_at-put_self :
      (key : String) (new : A) (rest : Assoc A) → value_at key (put key new rest) ≡ some new
  value_at-put_self key new rest = ground (arith, value_at-put key key new rest, eq_iff key key)

  pub value_at-put_same :
      (key other : String) (new : A) (rest : Assoc A)
      → key == other ≡ true
      → value_at other (put key new rest) ≡ some new
  value_at-put_same key other new rest h = ground (arith, value_at-put key other new rest)

  pub value_at-put_other :
      (key other : String) (new : A) (rest : Assoc A)
      → key == other ≡ false
      → value_at other (put key new rest) ≡ value_at other rest
  value_at-put_other key other new rest h = ground (arith, value_at-put key other new rest)
