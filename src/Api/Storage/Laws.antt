-- ===== src/Api/Storage/Laws.antt =====
-- Laws of the storage, and the persistence of the fingerprint (frontend/src/services/api.js).
use text.Mathlib.TextLemmas.{cons-append}
use poll.Prelude.{
  String, ◌++◌, ◌≡◌, refl, ap, true, none, some, [], ◌∷◌, ◌==◌, eq_iff, arith, if◌then◌else◌,
  truthy, substring, ◌≢◌,
}
use poll.Api.Storage.{
  Storage, get_item, set_item, remove_item, Chance, new_fingerprint, get_voter_fingerprint,
}

pub get_item-set_item :
    (k j v : String) (m : Storage)
    → get_item j (set_item k v m) ≡ (if k == j then some v else get_item j m)
unfolding get_item set_item
get_item-set_item k j v [] = refl
get_item-set_item k j v ((i, w) ∷ m) =
    ground (arith, eq_iff k j, eq_iff i k, eq_iff i j, get_item-set_item k j v m)

pub get_item-remove_item :
    (k j : String) (m : Storage)
    → get_item j (remove_item k m) ≡ (if k == j then none else get_item j m)
unfolding get_item remove_item
get_item-remove_item k j [] = ground arith
get_item-remove_item k j ((i, w) ∷ m) =
    ground (arith, eq_iff k j, eq_iff i k, eq_iff i j, get_item-remove_item k j m)

pub new_fingerprint-truthy : (c : Chance) → truthy (new_fingerprint c) ≡ true
unfolding new_fingerprint
new_fingerprint-truthy c =
    ap truthy (cons-append "v" "oter_" (substring c.random36 2 11 ++ c.now36))

-- The fingerprint that a call returns is not empty, and is what the storage holds after it.
pub fingerprint_stored :
    (c : Chance) (m : Storage)
    → (truthy (get_voter_fingerprint c m).0 ≡ true)
      × (get_item "voter_fingerprint" (get_voter_fingerprint c m).1
          ≡ some (get_voter_fingerprint c m).0)
unfolding get_voter_fingerprint
fingerprint_stored c m = ground (
  arith,
  new_fingerprint-truthy c,
  eq_iff "voter_fingerprint" "voter_fingerprint",
  get_item-set_item "voter_fingerprint" "voter_fingerprint" (new_fingerprint c) m,
)

-- A later call, whatever the randomness and the time, returns the same fingerprint and writes
-- nothing; and no call changes another key.
pub fingerprint_persists :
    (c d : Chance) (m : Storage)
    → get_voter_fingerprint d (get_voter_fingerprint c m).1
      ≡ ((get_voter_fingerprint c m).0, (get_voter_fingerprint c m).1)
unfolding get_voter_fingerprint
fingerprint_persists c d m = ground (
  arith,
  new_fingerprint-truthy c,
  eq_iff "voter_fingerprint" "voter_fingerprint",
  get_item-set_item "voter_fingerprint" "voter_fingerprint" (new_fingerprint c) m,
)

pub fingerprint_frame :
    (c : Chance) (k : String) (m : Storage)
    → k ≢ "voter_fingerprint"
    → get_item k (get_voter_fingerprint c m).1 ≡ get_item k m
unfolding get_voter_fingerprint
fingerprint_frame c k m h = ground (
  arith,
  eq_iff "voter_fingerprint" k,
  get_item-set_item "voter_fingerprint" k (new_fingerprint c) m,
)
