-- ===== src/Core/Process/Voting.antt =====
-- primary/src/core.rs: for which headers the core votes.
use tusk_ubuntu.Prelude.{
  ◌≡◌, ◌⊎◌, refl, inl, inr, Bool, true, false, List, [], ◌∷◌, ◌++◌, leb, ◌==◌, if◌then◌else◌,
  Bool-cases,
}
use tusk_ubuntu.Prelude.Map
use tusk_ubuntu.Prelude.Set
use tusk_ubuntu.Prelude.Result.{Result-cases}
use tusk_ubuntu.Config.{primary, quorum_threshold}
use tusk_ubuntu.Messages.{Header, Vote, Certificate, new_vote}
use tusk_ubuntu.Core.{Core, Setup}
use tusk_ubuntu.Core.Actions.{Action, Answer, done, failed, panicked, exhausted, after}
use tusk_ubuntu.Core.Quiet.{
  Quiet, votes_of, votes_of-append, get_parents-Quiet, missing_payload-Quiet,
}
use tusk_ubuntu.Core.Synchronizer.{get_parents, missing_payload}
use tusk_ubuntu.Core.Process.{
  parents_stake, cast_vote, vote_once, check_and_vote, process_header, has_voted, note_vote,
  note_processing, store_header,
}
use tusk_ubuntu.Core.Process.Total.{parents_stake-Quiet}

module _ {D : Type 0} (setup : Setup D) (process : Vote → Action D (Unit {0})) (h : Header)
    (other : (h.author == setup.name) ≡ false) where
  -- No vote went out and the record of votes is as it was, or the author had no vote on record for the
  -- round, has one now, and at most our vote for this header went out.
  abbrev pub VotesOnce : Core D → Core D → Type 0
  VotesOnce s t =
      ((votes_of t.sent ≡ votes_of s.sent) × (t.last_voted ≡ s.last_voted))
      ⊎ ((has_voted setup h s ≡ false)
          × (has_voted setup h t ≡ true)
          × ((votes_of t.sent ≡ votes_of s.sent)
              ⊎ (votes_of t.sent ≡ votes_of s.sent ++ new_vote setup.primitives h setup.name ∷ [])))

  after-VotesOnce :
      {A : Type 0} (s : Core D) (r : Core D × Answer A) (f : A → Action D (Unit {0}))
      → Quiet s r
      → ((a : A) (t : Core D) → VotesOnce t (f a t).0)
      → VotesOnce s (after r f).0
  after-VotesOnce s (t, done a) f q g = rw (← q.voted, ← q.ballots) (g a t)
  after-VotesOnce s (t, failed e) f q g = inl (q.ballots, q.voted)
  after-VotesOnce s (t, panicked) f q g = inl (q.ballots, q.voted)
  after-VotesOnce s (t, exhausted) f q g = inl (q.ballots, q.voted)

  recorded : (s : Core D) → has_voted setup h (note_vote setup h s) ≡ true
  recorded s =
      rw
        (Map.entry_or-insert h.round [] (Set.insert h.author (Map.entry_or h.round [] s.last_voted))
          s.last_voted)
        (Set.contains-insert_self h.author (Map.entry_or h.round [] s.last_voted))

  cast_vote-VotesOnce :
      (s : Core D)
      → has_voted setup h s ≡ false
      → VotesOnce s (cast_vote setup process h (note_vote setup h s)).0
  unfolding cast_vote new_vote votes_of
  cast_vote-VotesOnce s new = elim (Result-cases (primary setup.committee h.author)) [
    | inl (a, e) ↦ rw (other, e) (inr (new, recorded s, inr (votes_of-append s.sent _)))
    | inr (x, e) ↦ rw (other, e) (inr (new, recorded s, inl refl))
  ]

  if-VotesOnce :
      (b : Bool) (s : Core D) (x y : Core D × Answer (Unit {0}))
      → VotesOnce s x.0
      → (b ≡ false → VotesOnce s y.0)
      → VotesOnce s (if b then x else y).0
  if-VotesOnce true s x y f g = f
  if-VotesOnce false s x y f g = g refl

  vote_once-VotesOnce : (s : Core D) → VotesOnce s (vote_once setup process h s).0
  unfolding vote_once
  vote_once-VotesOnce s =
      if-VotesOnce (has_voted setup h s) s _ _ (inl (refl, refl)) (cast_vote-VotesOnce s)

  check_and_vote-VotesOnce :
      (xs : List Certificate) (s : Core D) → VotesOnce s (check_and_vote setup process h xs s).0
  unfolding check_and_vote store_header
  check_and_vote-VotesOnce xs s =
      after-VotesOnce s (parents_stake setup h xs 0 s) _ (parents_stake-Quiet setup h xs 0 s)
        λ weight t. elim (Bool-cases (leb (quorum_threshold setup.committee) weight)) [
          | inl q ↦ rw q (
              after-VotesOnce t (missing_payload setup h t) _ (missing_payload-Quiet setup h t)
                (elim [
                  | true ↦ λ u. inl (refl, refl)
                  | false ↦ λ u. vote_once-VotesOnce (store_header setup h u)
                ]))
          | inr q ↦ rw q (inl (refl, refl))
        ]

  -- Whatever happens to another author's header, by the end either no vote was sent and the record of
  -- votes is unchanged, or no vote for that author and round was on record before, one is on record
  -- after, and nothing but, at most, our vote for this header was sent. What the core does with its own
  -- vote does not matter.
  pub process_header-VotesOnce : (s : Core D) → VotesOnce s (process_header setup process h s).0
  unfolding process_header
  process_header-VotesOnce s =
      after-VotesOnce (note_processing setup h s) (get_parents setup h (note_processing setup h s))
        _ (get_parents-Quiet setup h (note_processing setup h s))
        (elim [ [] ↦ λ t. inl (refl, refl) | x ∷ xs ↦ λ t. check_and_vote-VotesOnce (x ∷ xs) t ])
