-- ===== src/Create/Submit.antt =====
-- What the form (frontend/src/pages/CreatePoll.jsx) sends, and when it refuses.
use mathlib.Core.Option.{none-ne-some, some-injective}
use poll.Prelude.{
  ◌≤◌, ◌≡◌, ◌≢◌, ◌↔◌, refl, ap, sym, String, Bool, true, false, Option, none, some, List, [], ◌∷◌,
  map, arith, length, All, truthy, trim, trim_idem, utf16_length, eqb, ltb, eq_iff, length-map,
  length-keep_if, keep_if, inl, inr, Bool-cases,
}
use poll.Api.Request.{create_poll, Call, new_poll}
use poll.Create.Options.{HasRows}
use poll.Create.{Form, contains, set_size, clean_options, handle_submit}

-- No element equals a later one.
abbrev pub IsDistinct : List String → Type 0
IsDistinct [] = Unit
IsDistinct (x ∷ xs) = All (λ y. y ≢ x) xs × IsDistinct xs

set_size-le : (xs : List String) → set_size xs ≤ length xs
unfolding set_size
set_size-le [] = omega arith
set_size-le (x ∷ xs) = ground (arith, set_size-le xs)

contains-All : (a : String) (xs : List String) → contains a xs ≡ false → All (λ y. y ≢ a) xs
contains-All a [] h = tt
contains-All a (x ∷ xs) h = (λ e. ground (arith, eq_iff x a), contains-All a xs (ground arith))

All-contains : (a : String) (xs : List String) → All (λ y. y ≢ a) xs → contains a xs ≡ false
All-contains a [] h = refl
All-contains a (x ∷ xs) h = ground (arith, eq_iff x a, All-contains a xs h.1)

-- The size of the set is the length of the list exactly if the list has no repetition.
set_size-IsDistinct : (xs : List String) → set_size xs ≡ length xs → IsDistinct xs
unfolding set_size
set_size-IsDistinct [] h = tt
set_size-IsDistinct (x ∷ xs) h =
    let fresh : contains x xs ≡ false = ground (arith, set_size-le xs) in
    (contains-All x xs fresh, set_size-IsDistinct xs (ground arith))

IsDistinct-set_size : (xs : List String) → IsDistinct xs → set_size xs ≡ length xs
unfolding set_size
IsDistinct-set_size [] h = refl
IsDistinct-set_size (x ∷ xs) h = ground (arith, All-contains x xs h.0, IsDistinct-set_size xs h.1)

module _ (lower : String → String) where
  -- What the page asks of a new poll: the title has 3 characters at least, and two options at least
  -- are left, which differ also when case is ignored.
  pub record IsAcceptable (f : Form) : Type 0 where
    pub long_title : 3 ≤ utf16_length (trim f.title)
    pub enough : 2 ≤ length (clean_options f.options)
    pub distinct : IsDistinct (map lower (clean_options f.options))

  -- the call for a form
  abbrev pub call_for : Form → Call
  call_for f = create_poll (trim f.title) (trim f.description) (clean_options f.options)

  accepts :
      (f : Form)
      → IsAcceptable f
      → handle_submit lower f ≡ (record f { loading = true; error = "" }, some (call_for f))
  unfolding handle_submit
  accepts f h = ground (
    arith,
    h.long_title,
    h.enough,
    IsDistinct-set_size _ h.distinct,
    length-map lower (clean_options f.options),
  )

  abbrev unique : Form → Bool
  unique f =
      let options = clean_options f.options in eqb (set_size (map lower options)) (length options)

  unique-IsDistinct :
      (f : Form) → unique f ≡ true → IsDistinct (map lower (clean_options f.options))
  unique-IsDistinct f h =
      set_size-IsDistinct _ (ground (arith, length-map lower (clean_options f.options)))

  call-IsAcceptable : (f : Form) → (handle_submit lower f).1 ≡ some (call_for f) → IsAcceptable f
  unfolding handle_submit
  call-IsAcceptable f e = record {
    long_title = ground arith;
    enough = ground arith;
    distinct = unique-IsDistinct f (ground arith);
  }

  -- The form makes its call, with trimmed texts, exactly if it is acceptable; it then waits for the
  -- answer and shows no error.
  pub submit_iff :
      (f : Form)
      → (handle_submit lower f ≡ (record f { loading = true; error = "" }, some (call_for f)))
        ↔ IsAcceptable f
  submit_iff f = (λ e. call-IsAcceptable f (ap (λ (r : Form × Option Call). r.1) e), accepts f)

  -- A form that is not acceptable makes no call, says why, and loads no more than before.
  pub submit_refuses :
      (f : Form)
      → ¬ IsAcceptable f
      → ((handle_submit lower f).1 ≡ none)
        × (truthy (handle_submit lower f).0.error ≡ true)
        × ((handle_submit lower f).0.loading ≡ f.loading)
  unfolding handle_submit
  submit_refuses f bad = elim (Bool-cases (ltb (utf16_length (trim f.title)) 3)) [
    | inl short ↦ rw short (refl, refl, refl)
    | inr long ↦ elim (Bool-cases (ltb (length (clean_options f.options)) 2)) [
      | inl few ↦ rw (long, few) (refl, refl, refl)
      | inr enough ↦ elim (Bool-cases (unique f)) [
        | inr repeated ↦ rw (long, enough, repeated) (refl, refl, refl)
        | inl distinct ↦ absurd (
            bad (record {
              long_title = ground arith;
              enough = ground arith;
              distinct = unique-IsDistinct f distinct;
            }))
      ]
    ]
  ]

-- a text without white space at its ends, and not empty
abbrev pub IsClean : String → Type 0
IsClean o = (trim o ≡ o) × (truthy o ≡ true)

pub clean_options-IsClean : (os : List String) → All IsClean (clean_options os)
unfolding clean_options
clean_options-IsClean [] = tt
clean_options-IsClean (o ∷ os) = elim (Bool-cases (truthy (trim o))) [
  | inl full ↦ rw full ((trim_idem o, full), clean_options-IsClean os)
  | inr blank ↦ rw blank (clean_options-IsClean os)
]

pub clean_options-length : (os : List String) → length (clean_options os) ≤ length os
unfolding clean_options
clean_options-length os = omega (arith, length-keep_if truthy (map trim os), length-map trim os)

-- the options in the body of a call
abbrev pub options_sent : Option Call → Option (List String)
options_sent none = none
options_sent (some c) = elim c.1.body [ some (new_poll t d os) ↦ some os | _ ↦ none ]

-- A call is made on the last of the branches only.
sent_body :
    (lower : String → String) (f : Form) (os : List String)
    → options_sent (handle_submit lower f).1 ≡ some os
    → (os ≡ clean_options f.options) × (2 ≤ length (clean_options f.options))
unfolding handle_submit create_poll
sent_body lower f os h = elim (Bool-cases (ltb (utf16_length (trim f.title)) 3)) [
  | inl short ↦ absurd (none-ne-some os (rw short at h))
  | inr long ↦ elim (Bool-cases (ltb (length (clean_options f.options)) 2)) [
    | inl few ↦ absurd (none-ne-some os (rw (long, few) at h))
    | inr enough ↦ elim (Bool-cases (unique lower f)) [
      | inr repeated ↦ absurd (none-ne-some os (rw (long, enough, repeated) at h))
      | inl distinct ↦ (
        sym (some-injective (clean_options f.options) os (rw (long, enough, distinct) at h)),
        ground arith,
      )
    ]
  ]
]

-- What a form of the page sends has 2 to 8 options, each of them trimmed and not empty, and they are
-- the texts of its rows that are not blank, in their order.
pub sent_options :
    (lower : String → String) (f : Form) (os : List String)
    → HasRows f
    → options_sent (handle_submit lower f).1 ≡ some os
    → (os ≡ keep_if truthy (map trim f.options))
      × (2 ≤ length os)
      × (length os ≤ 8)
      × All IsClean os
unfolding clean_options
sent_options lower f os rows h =
    let (same, enough) = sent_body lower f os h in
    rw same (
      refl,
      enough,
      omega (arith, clean_options-length f.options, rows),
      clean_options-IsClean f.options,
    )
