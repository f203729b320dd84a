-- ===== src/Polls/Mongo/Agreement.antt =====
-- The steps of a server with MongoDB and of one without it
-- (backend/internal/services/poll_service.go).
use mathlib.Core.Option.{none-ne-some, some-injective}
use poll.Prelude.{
  ℕ, String, ◌≡◌, refl, ap, sym, ◌∙◌, Bool, true, Option, none, some, List, [], ◌∷◌, ◌==◌, eq_refl,
  if◌then◌else◌, Assoc, value_at, value_at-put_self, value_at-delete, inl, inr, Bool-cases,
  Option-cases, put, delete,
}
use poll.Models.{Number, Poll}
use poll.Api.Request.{ok, err}
use poll.Voting
use poll.Voting.{Server, Sync, and_then, calculate_percentages, with_votes, or_else}
use poll.Voting.Casting.{get_poll_found, get_poll_missing, looked}
use poll.Polls
use poll.Polls.Mongo as Mongo
use poll.Polls.Mongo.{Collection, Depot, with_counts, unless_failed, found_or_not, in_memory}
use poll.Polls.Mongo.Alike.{
  Answers, Event, looks, sets, deletes, syncs, Answer, shows, mongo_step, mongo_answers,
  memory_step, memory_answers, calc, calc-calc, calc-as_stored, calc-status, calc-with_counts,
  with_status, replaced,
}

module _ {D : Type 0} (db : Collection D) (answers : Answers db) (percent : ℕ → ℕ → Number)
    (object_id : String → Option String) (nil_id : String) (is_object_id : String → Bool)
    (q id : String) (valid : object_id q ≡ some id) (known : is_object_id q ≡ true) where
  abbrev calculated : Option Poll → Option Poll
  calculated none = none
  calculated (some p) = some (calc percent p)

  -- the two stores hold the same poll, or none, up to the percentages
  abbrev IsAlike : Depot D → Server → Type 0
  IsAlike x s = calculated (db.find_one id x.store) ≡ calculated (value_at q s.mem_polls)

  mongo_found :
      (x : Depot D) (p : Poll)
      → db.find_one id x.store ≡ some p
      → Mongo.get_poll db percent object_id nil_id q x ≡ (ok (calc percent p), x)
  unfolding Mongo.get_poll
  mongo_found x p h = rw (valid, h, Mongo.get_poll) refl

  mongo_missing :
      (x : Depot D)
      → db.find_one id x.store ≡ none
      → Mongo.get_poll db percent object_id nil_id q x ≡ (err "poll not found", x)
  unfolding Mongo.get_poll
  mongo_missing x h = rw (valid, h, Mongo.get_poll) refl

  memory_missing :
      (s : Server)
      → value_at q s.mem_polls ≡ none
      → Voting.get_poll percent is_object_id q s ≡ (err "poll not found", s)
  memory_missing s h = rw (get_poll_missing percent is_object_id q s h, known) refl

  module _ (x : Depot D) (s : Server) where
    abbrev AreTogether : Answer × Depot D → Answer × Server → Type 0
    AreTogether (a, y) (b, t) = (a ≡ b) × IsAlike y t

    stays : IsAlike x s → (a : Answer) → AreTogether (a, x) (a, s)
    stays alike a = (refl, alike)

    -- after a look at a poll that both have
    looked-IsAlike :
        (p p' : Poll)
        → db.find_one id x.store ≡ some p
        → calc percent p ≡ calc percent p'
        → IsAlike x (looked percent is_object_id q p' s)
    looked-IsAlike p p' h same =
        ap calculated h
        ∙ ap some (same ∙ sym (calc-calc percent p'))
        ∙ sym (ap calculated (value_at-put_self q (calc percent p') s.mem_polls))

    updated : (b : Bool) → db.update_status id b x.store ≡ (none, (db.update_status id b x.store).1)
    updated b =
        ap (λ a. (a, (db.update_status id b x.store).1)) (answers.update_answers id b x.store)

    erased : db.delete_one id x.store ≡ (none, (db.delete_one id x.store).1)
    erased = ap (λ a. (a, (db.delete_one id x.store).1)) (answers.delete_answers id x.store)

    gone : (polls : Assoc Poll) → value_at q (delete q polls) ≡ none
    gone polls =
        value_at-delete q q polls ∙ ap (λ b. if b then none else value_at q polls) (eq_refl q)

    set-IsAlike :
        (b : Bool) (p p' : Poll)
        → db.find_one id x.store ≡ some p
        → calc percent p ≡ calc percent p'
        → let new = calc percent (record (calc percent p') { is_active = b }) in
          IsAlike
            (record x { store = (db.update_status id b x.store).1 })
            (record s { mem_polls = put q new (looked percent is_object_id q p' s).mem_polls })
    set-IsAlike b p p' h same =
        let new = calc percent (record (calc percent p') { is_active = b }) in
        ap calculated (answers.find_updated id b x.store ∙ ap (with_status b) h)
        ∙ ap some (
            sym (calc-status percent b p)
            ∙ ap (λ c. calc percent (record c { is_active = b })) same
            ∙ sym (calc-calc percent (record (calc percent p') { is_active = b })))
        ∙ sym
            (ap calculated (value_at-put_self q new (looked percent is_object_id q p' s).mem_polls))

    module _ (user : String) (p p' : Poll) (h : db.find_one id x.store ≡ some p)
        (h' : value_at q s.mem_polls ≡ some p') (same : calc percent p ≡ calc percent p') where
      look_found :
          AreTogether
            (mongo_step db percent object_id nil_id q looks x)
            (memory_step percent is_object_id q looks s)
      unfolding mongo_step memory_step
      look_found =
          rw (mongo_found x p h, get_poll_found percent is_object_id q s p' h')
            (ap (λ c. shows (ok c)) same, looked-IsAlike p p' h same)

      found_same : Mongo.get_poll db percent object_id nil_id q x ≡ (ok (calc percent p'), x)
      found_same = mongo_found x p h ∙ ap (λ c. (ok c, x)) same

      set_found :
          (b : Bool)
          → AreTogether
              (mongo_step db percent object_id nil_id q (sets user b) x)
              (memory_step percent is_object_id q (sets user b) s)
      unfolding mongo_step memory_step Mongo.set_poll_status Polls.set_poll_status
      set_found b = elim (Bool-cases ((calc percent p').creator_id == user)) [
        | inl e ↦
            rw (found_same, get_poll_found percent is_object_id q s p' h', e, valid, updated b)
              (refl, set-IsAlike b p p' h same)
        | inr e ↦
            rw (found_same, get_poll_found percent is_object_id q s p' h', e)
              (refl, looked-IsAlike p p' h same)
      ]

      delete_found :
          AreTogether
            (mongo_step db percent object_id nil_id q (deletes user) x)
            (memory_step percent is_object_id q (deletes user) s)
      unfolding mongo_step memory_step Mongo.delete_poll Polls.delete_poll
      delete_found = elim (Bool-cases ((calc percent p').creator_id == user)) [
        | inl e ↦
            rw (found_same, get_poll_found percent is_object_id q s p' h', e, valid, erased)
              (
                refl,
                ap calculated (answers.find_deleted id x.store)
                    ∙ sym (ap calculated (gone (looked percent is_object_id q p' s).mem_polls)),
              )
        | inr e ↦
            rw (found_same, get_poll_found percent is_object_id q s p' h', e)
              (refl, looked-IsAlike p p' h same)
      ]

      sync_found :
          (v : Assoc ℕ) (t : ℕ)
          → AreTogether
              (mongo_step db percent object_id nil_id q (syncs v t) x)
              (memory_step percent is_object_id q (syncs v t) s)
      unfolding mongo_step memory_step Mongo.update_votes_in_db Voting.update_votes_in_db
      sync_found v t =
          rw (valid, h, h', Mongo.update_votes_in_db, Voting.update_votes_in_db)
            (
              refl,
              ap calculated (
                    answers.find_replaced id (with_counts v t p) x.store
                    ∙ ap (replaced (with_counts v t p)) h)
                  ∙ ap some (
                      calc-as_stored percent (with_counts v t p)
                      ∙ sym (calc-with_counts percent v t p)
                      ∙ ap (λ c. calc percent (with_counts v t c)) same
                      ∙ calc-with_counts percent v t p')
                  ∙ sym (ap calculated (value_at-put_self q (with_counts v t p') s.mem_polls)),
            )

    module _ (h : db.find_one id x.store ≡ none) (h' : value_at q s.mem_polls ≡ none) where
      missing-IsAlike : IsAlike x s
      missing-IsAlike = ap calculated h ∙ sym (ap calculated h')

      all_missing :
          (e : Event)
          → AreTogether
              (mongo_step db percent object_id nil_id q e x)
              (memory_step percent is_object_id q e s)
      unfolding mongo_step memory_step Mongo.set_poll_status Polls.set_poll_status Mongo.delete_poll
          Polls.delete_poll Mongo.update_votes_in_db Voting.update_votes_in_db
      all_missing looks = rw (mongo_missing x h, memory_missing s h') (refl, missing-IsAlike)
      all_missing (sets user b) =
          rw (mongo_missing x h, memory_missing s h') (refl, missing-IsAlike)
      all_missing (deletes user) =
          rw (mongo_missing x h, memory_missing s h') (refl, missing-IsAlike)
      all_missing (syncs v t) =
          rw (valid, h, h', Mongo.update_votes_in_db, Voting.update_votes_in_db)
            (refl, missing-IsAlike)

    all_found :
        (p p' : Poll)
        → db.find_one id x.store ≡ some p
        → value_at q s.mem_polls ≡ some p'
        → calc percent p ≡ calc percent p'
        → (e : Event)
        → AreTogether
            (mongo_step db percent object_id nil_id q e x)
            (memory_step percent is_object_id q e s)
    all_found p p' h h' same looks = look_found "" p p' h h' same
    all_found p p' h h' same (sets user b) = set_found user p p' h h' same b
    all_found p p' h h' same (deletes user) = delete_found user p p' h h' same
    all_found p p' h h' same (syncs v t) = sync_found "" p p' h h' same v t

    step_alike :
        (e : Event)
        → IsAlike x s
        → AreTogether
            (mongo_step db percent object_id nil_id q e x)
            (memory_step percent is_object_id q e s)
    step_alike e alike = elim (Option-cases (db.find_one id x.store)) [
      | inl h ↦ elim (Option-cases (value_at q s.mem_polls)) [
        | inl h' ↦ all_missing h h' e
        | inr (p', h') ↦ absurd (none-ne-some _ (sym (ap calculated h) ∙ alike ∙ ap calculated h'))
      ]
      | inr (p, h) ↦ elim (Option-cases (value_at q s.mem_polls)) [
        | inl h' ↦ absurd (none-ne-some _ (sym (sym (ap calculated h) ∙ alike ∙ ap calculated h')))
        | inr (p', h') ↦
            all_found p p' h h'
              (some-injective (calc percent p) (calc percent p')
                (sym (ap calculated h) ∙ alike ∙ ap calculated h'))
              e
      ]
    ]

  answers_alike :
      (es : List Event) (x : Depot D) (s : Server)
      → IsAlike x s
      → mongo_answers db percent object_id nil_id q es x
        ≡ memory_answers percent is_object_id q es s
  unfolding mongo_answers memory_answers
  answers_alike [] x s alike = refl
  answers_alike (e ∷ es) x s alike =
      let (same, alike') = step_alike x s e alike in
      let later =
        answers_alike es (mongo_step db percent object_id nil_id q e x).1
          (memory_step percent is_object_id q e s).1 alike' in
      rw (same, later) refl

  -- Whatever is asked of a poll, in whatever order - to show it, to close or open it, to delete it, to
  -- write the counts of a vote - a server with MongoDB gives the answers of one without, if both start
  -- with the same poll, or none. MongoDB answers, and the identifier of the poll is one of MongoDB's.
  pub mongo_alike :
      (es : List Event) (x : Depot D) (s : Server)
      → db.find_one id x.store ≡ value_at q s.mem_polls
      → mongo_answers db percent object_id nil_id q es x
        ≡ memory_answers percent is_object_id q es s
  mongo_alike es x s same = answers_alike es x s (ap calculated same)
