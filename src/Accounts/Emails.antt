-- ===== src/Accounts/Emails.antt =====
-- The accounts of backend/internal/services/auth_service.go by their e-mail addresses, and what a new
-- one changes.
use mathlib.Core.Option.{none-ne-some, some-injective}
use poll.Prelude.{
  String, ◌≡◌, ◌≢◌, refl, ap, sym, ◌∙◌, false, none, some, [], ◌∷◌, arith, ◌==◌, eq_iff, All, put,
  Bool-cases, inl, inr,
}
use poll.Accounts.{Account, Accounts, find_email}

-- An entry stands under the identifier of its account.
abbrev pub IsKeyed : Accounts → Type 0
IsKeyed users = All (λ entry. entry.0 ≡ entry.1.id) users

-- No account has the e-mail address of a later one.
abbrev pub HaveOwnEmails : Accounts → Type 0
HaveOwnEmails [] = Unit
HaveOwnEmails (entry ∷ rest) = (find_email entry.1.email rest ≡ none) × HaveOwnEmails rest

pub find_email-put_new :
    (email id : String) (a : Account) (users : Accounts)
    → a.email == email ≡ false
    → find_email email users ≡ none
    → find_email email (put id a users) ≡ none
unfolding find_email put
find_email-put_new email id a [] other h = ground arith
find_email-put_new email id a (entry ∷ rest) other h = elim (Bool-cases (entry.1.email == email)) [
  | inl e ↦ absurd (none-ne-some entry.1 (sym h ∙ rw e refl))
  | inr e ↦ ground (arith, find_email-put_new email id a rest other)
]

pub put-HaveOwnEmails :
    (a : Account) (users : Accounts)
    → find_email a.email users ≡ none
    → HaveOwnEmails users
    → HaveOwnEmails (put a.id a users)
unfolding find_email put
put-HaveOwnEmails a [] h own = (refl, tt)
put-HaveOwnEmails a (entry ∷ rest) h (first, own) = elim (Bool-cases (entry.1.email == a.email)) [
  | inl e ↦ absurd (none-ne-some entry.1 (sym h ∙ rw e refl))
  | inr e ↦
      let later : find_email a.email rest ≡ none = sym (rw e refl) ∙ h in
      elim (Bool-cases (entry.0 == a.id)) [
        | inl same ↦ rw same (later, own)
        | inr other ↦ rw other (
          find_email-put_new entry.1.email a.id a rest
              (ground (arith, eq_iff entry.1.email a.email, eq_iff a.email entry.1.email)) first,
          put-HaveOwnEmails a rest later own,
        )
      ]
]

pub put-IsKeyed : (a : Account) (users : Accounts) → IsKeyed users → IsKeyed (put a.id a users)
unfolding put
put-IsKeyed a [] h = (refl, tt)
put-IsKeyed a (entry ∷ rest) (h, hs) = elim (Bool-cases (entry.0 == a.id)) [
  | inl same ↦ rw same (refl, hs)
  | inr other ↦ rw other (h, put-IsKeyed a rest hs)
]

pub find_email-put_self :
    (a : Account) (users : Accounts)
    → find_email a.email users ≡ none
    → find_email a.email (put a.id a users) ≡ some a
unfolding find_email put
find_email-put_self a [] h = ground (arith, eq_iff a.email a.email)
find_email-put_self a (entry ∷ rest) h = elim (Bool-cases (entry.1.email == a.email)) [
  | inl e ↦ absurd (none-ne-some entry.1 (sym h ∙ rw e refl))
  | inr e ↦ ground (arith, find_email-put_self a rest, eq_iff a.email a.email)
]

-- An account stays where one with another identifier and another address is put.
pub find_email-put_other :
    (a b : Account) (users : Accounts)
    → IsKeyed users
    → b.id ≢ a.id
    → b.email == a.email ≡ false
    → find_email a.email users ≡ some a
    → find_email a.email (put b.id b users) ≡ some a
unfolding find_email put
find_email-put_other a b [] keyed ids other h = absurd (none-ne-some a h)
find_email-put_other a b (entry ∷ rest) (key, keyed) ids other h =
    elim (Bool-cases (entry.1.email == a.email)) [
      | inl e ↦
          let same : entry.1 ≡ a = some-injective entry.1 a (sym (rw e refl) ∙ h) in
          let differ : entry.0 ≢ b.id = λ i. ids (sym i ∙ key ∙ ap (λ (x : Account). x.id) same) in
          ground (arith, eq_iff entry.0 b.id)
      | inr e ↦ ground (arith, find_email-put_other a b rest keyed ids other)
    ]
