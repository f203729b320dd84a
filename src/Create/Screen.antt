-- ===== src/Create/Screen.antt =====
-- What frontend/src/pages/CreatePoll.jsx shows of the form for a poll.
use poll.Prelude.{
  ℕ, zero, suc, ◌+◌, ◌<◌, ◌≡◌, refl, ap, ◌∙◌, String, ◌++◌, Bool, false, ◌||◌, Option, none, some,
  List, [], ◌∷◌, ltb, if◌then◌else◌, length, length-append, length-remove_at, is_empty, truthy,
  trim, show, arith, inl, inr, Bool-cases,
}
use poll.Create.{Form, handle_add_option, handle_remove_option}

pub record Row : Type 0 where
  pub number : String
  pub placeholder : String
  pub value : String
  pub has_remove : Bool

-- `links` are the buttons that go to another view.
pub record Screen : Type 0 where
  pub heading : String
  pub links : List (String × String)
  pub alert : Option String
  pub title : String
  pub description : String
  pub rows : List Row
  pub has_add : Bool
  pub submit_label : String
  pub is_disabled : Bool

-- the rows from the index `n` on, of a form with so many options
abbrev pub rows_from : ℕ → (count : ℕ) → List String → List Row
rows_from n count [] = []
rows_from n count (o ∷ os) =
    record {
      number = show (n + 1) ++ ".";
      placeholder = "Option " ++ show (n + 1);
      value = o;
      has_remove = ltb 2 count;
    }
    ∷ rows_from (suc n) count os

unfoldable pub render : Form → Screen
render f = record {
  heading = "Create a Live Poll";
  links = ("Back to Dashboard", "dashboard") ∷ ("Cancel", "dashboard") ∷ [];
  alert = if truthy f.error then some f.error else none;
  title = f.title;
  description = f.description;
  rows = rows_from 0 (length f.options) f.options;
  has_add = ltb (length f.options) 8;
  submit_label = if f.loading then "Creating Poll..." else "Publish & Start Live Poll";
  is_disabled = f.loading || is_empty (trim f.title);
}

abbrev pub can_remove : List Row → ℕ → Bool
can_remove [] i = false
can_remove (r ∷ rs) zero = r.has_remove
can_remove (r ∷ rs) (suc i) = can_remove rs i

length-rows_from : (n count : ℕ) (os : List String) → length (rows_from n count os) ≡ length os
length-rows_from n count [] = refl
length-rows_from n count (o ∷ os) = ap suc (length-rows_from (suc n) count os)

can_remove-rows_from :
    (n count i : ℕ) (os : List String)
    → i < length os
    → can_remove (rows_from n count os) i ≡ ltb 2 count
can_remove-rows_from n count i [] h = elim h [ ]
can_remove-rows_from n count zero (o ∷ os) h = refl
can_remove-rows_from n count (suc i) (o ∷ os) h =
    can_remove-rows_from (suc n) count i os (omega arith)

-- The page shows a row for each option, and offers what has an effect: a click on the button that adds
-- an option makes one row more, and there is no such button where it would not; a click on the button of
-- a row makes one row less, and the row has no such button where it would not.
pub offers_work :
    (f : Form) (i : ℕ)
    → i < length f.options
    → (length (render f).rows ≡ length f.options)
      × (length (handle_add_option f).options
          ≡ (if (render f).has_add then suc (length f.options) else length f.options))
      × ((if can_remove (render f).rows i
            then suc (length (handle_remove_option i f).options)
            else length (handle_remove_option i f).options)
          ≡ length f.options)
unfolding render handle_add_option handle_remove_option
offers_work f i h = (
  length-rows_from 0 (length f.options) f.options,
  elim (Bool-cases (ltb (length f.options) 8)) [
    | inl few ↦ rw few (length-append f.options ("" ∷ []) ∙ omega arith)
    | inr full ↦ rw full refl
  ],
  ap
        (λ b.
          if b
          then suc (length (handle_remove_option i f).options)
          else length (handle_remove_option i f).options)
        (can_remove-rows_from 0 (length f.options) i f.options h)
      ∙ elim (Bool-cases (ltb 2 (length f.options))) [
        | inl many ↦ rw many (omega (arith, length-remove_at f.options i h))
        | inr two ↦ rw two refl
      ],
)
