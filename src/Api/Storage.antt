-- ===== src/Api/Storage.antt =====
-- `localStorage`, and the fingerprint that frontend/src/services/api.js keeps in it
-- (`getVoterFingerprint`).
pub mod Laws
use poll.Prelude.{
  String, ◌++◌, Option, none, some, List, [], ◌∷◌, ◌==◌, if◌then◌else◌, truthy, substring,
}

-- The stored pairs; the order is not observable.
abbrev pub Storage : Type 0
Storage = List (String × String)

-- `localStorage.getItem(k)`
unfoldable pub get_item : String → Storage → Option String
get_item k [] = none
get_item k ((j, v) ∷ m) = if j == k then some v else get_item k m

-- `localStorage.setItem(k, v)`
unfoldable pub set_item : String → String → Storage → Storage
set_item k v [] = (k, v) ∷ []
set_item k v ((j, w) ∷ m) = if j == k then (k, v) ∷ m else (j, w) ∷ set_item k v m

-- `localStorage.removeItem(k)`
unfoldable pub remove_item : String → Storage → Storage
remove_item k [] = []
remove_item k ((j, v) ∷ m) = let rest = remove_item k m in if j == k then rest else (j, v) ∷ rest

-- What the browser gives at a call: `Math.random().toString(36)` and `Date.now().toString(36)`.
pub record Chance : Type 0 where
  pub random36 : String
  pub now36 : String

-- the fingerprint that a first call makes
unfoldable pub new_fingerprint : Chance → String
new_fingerprint c = "voter_" ++ (substring c.random36 2 11 ++ c.now36)

-- the branch that makes a fingerprint and stores it
unfoldable pub store_fingerprint : Chance → Storage → String × Storage
store_fingerprint c store =
    (new_fingerprint c, set_item "voter_fingerprint" (new_fingerprint c) store)

-- The fingerprint, and the storage after the call. A missing item and an empty one are both false.
unfoldable pub get_voter_fingerprint : Chance → Storage → String × Storage
unfolding store_fingerprint
get_voter_fingerprint c store = elim (get_item "voter_fingerprint" store) [
  | none ↦ store_fingerprint c store
  | some fp ↦ if truthy fp then (fp, store) else store_fingerprint c store
]
