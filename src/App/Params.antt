-- ===== src/App/Params.antt =====
-- `URLSearchParams`, as frontend/src/App.jsx uses it: the pairs of a query, in order.
use poll.Prelude.{
  String, ◌≡◌, refl, Option, none, some, List, [], ◌∷◌, arith, ◌==◌, eq_iff, if◌then◌else◌,
}

abbrev pub Params : Type 0
Params = List (String × String)

-- `params.get(k)`: the first value
unfoldable pub get_param : String → Params → Option String
get_param k [] = none
get_param k ((j, v) ∷ m) = if j == k then some v else get_param k m

-- `params.delete(k)`: all values
unfoldable pub delete_param : String → Params → Params
delete_param k [] = []
delete_param k ((j, v) ∷ m) = let rest = delete_param k m in if j == k then rest else (j, v) ∷ rest

-- `params.set(k, v)`: the first value is replaced and the others are deleted, or one is added.
unfoldable pub set_param : String → String → Params → Params
unfolding delete_param
set_param k v [] = (k, v) ∷ []
set_param k v ((j, w) ∷ m) = if j == k then (k, v) ∷ delete_param k m else (j, w) ∷ set_param k v m

pub get_param-delete_param :
    (k j : String) (m : Params)
    → get_param j (delete_param k m) ≡ (if k == j then none else get_param j m)
unfolding get_param delete_param
get_param-delete_param k j [] = ground arith
get_param-delete_param k j ((i, w) ∷ m) =
    ground (arith, eq_iff k j, eq_iff i k, eq_iff i j, get_param-delete_param k j m)

pub get_param-set_param :
    (k j v : String) (m : Params)
    → get_param j (set_param k v m) ≡ (if k == j then some v else get_param j m)
unfolding get_param set_param
get_param-set_param k j v [] = refl
get_param-set_param k j v ((i, w) ∷ m) = ground (
  arith,
  eq_iff k j,
  eq_iff i k,
  eq_iff i j,
  get_param-set_param k j v m,
  get_param-delete_param k j m,
)
