-- ===== src/Accounts/Mongo/Store.antt =====
-- A collection of accounts as a map: one with the index that
-- backend/internal/services/auth_service.go relies on.
use mathlib.Core.Option.{none-ne-some}
use poll.Prelude.{
  String, ◌≡◌, refl, ap, sym, ◌∙◌, true, false, Bool, Option, none, some, ◌==◌, eq_iff, arith, inl,
  inr, Bool-cases, value_at, put, value_at-put_self, value_at-put_other,
}
use poll.Accounts.{Account, Accounts}
use poll.Accounts.Mongo.{Users, IsUnique}

-- a collection whose documents stand under their addresses
abbrev inserted : Option Account → Account → Accounts → Bool × Accounts
inserted none a m = (true, put a.email a m)
inserted (some b) a m = (false, m)

abbrev pub by_address : Users Accounts
by_address = record { find_one = value_at; insert_one = λ a m. inserted (value_at a.email m) a m }

stays_under :
    (a b : Account) (email : String) (m : Accounts) (o : Option Account)
    → value_at a.email m ≡ o
    → value_at email m ≡ some b
    → value_at email (inserted o a m).1 ≡ some b
stays_under a b email m (some c) e h = h
stays_under a b email m none e h = elim (Bool-cases (a.email == email)) [
  | inr other ↦ value_at-put_other a.email email a m other ∙ h
  | inl same ↦
      absurd (none-ne-some b (sym e ∙ ap (λ k. value_at k m) ((eq_iff a.email email).0 same) ∙ h))
]

found_after :
    (a : Account) (m : Accounts) (o : Option Account)
    → (inserted o a m).0 ≡ true
    → value_at a.email (inserted o a m).1 ≡ some a
found_after a m none h = value_at-put_self a.email a m
found_after a m (some b) h = absurd (ground arith)

pub by_address-IsUnique : IsUnique by_address
by_address-IsUnique = record {
  taken_fails = λ a b m h. ap (λ o. inserted o a m) h;
  inserted_found = λ a m h. found_after a m (value_at a.email m) h;
  others_stay = λ a b email m h. stays_under a b email m (value_at a.email m) refl h;
}
