-- ===== src/Primary/PayloadReceiver/Available.antt =====
-- primary/src/core.rs and payload_receiver.rs together: a vote needs the payload.
use tusk_ubuntu.Prelude.{
  ◌≡◌, ◌⊎◌, ◌∙◌, refl, inl, inr, Bool, true, false, not, some, none, List, [], ◌∷◌, ◌==◌, ◌||◌, any,
  All, Bool-cases, if◌then◌else◌, leb,
}
use tusk_ubuntu.Prelude.Result.{ok}
use tusk_ubuntu.Config.{quorum_threshold}
use tusk_ubuntu.Store.{Key, Value, payload_key}
use tusk_ubuntu.Messages.{Header, Vote, Certificate}
use tusk_ubuntu.Core.{Core, Setup}
use tusk_ubuntu.Core.Actions.{Action, Answer, done, failed, panicked, exhausted, after}
use tusk_ubuntu.Core.Quiet.{Quiet, votes_of, get_parents-Quiet, missing_payload-Quiet}
use tusk_ubuntu.Core.Synchronizer.{get_parents}
use tusk_ubuntu.Core.Process.{parents_stake, check_and_vote, process_header, note_processing}
use tusk_ubuntu.Core.Process.Total.{parents_stake-Quiet}
use tusk_ubuntu.Primary.PayloadReceiver.{receive}
use tusk_ubuntu.Primary.PayloadReceiver.Payload.{
  Reports, is_reported, Fits, unreported, missing_payload_iff,
}

-- The worker that the header names for the batch has reported it, for every batch of the payload.
abbrev pub IsAvailable : Reports → Header → Type 0
IsAvailable reports h = All (λ e. is_reported reports e.0 e.1 ≡ true) h.payload

-- No vote went out and none came on record, or the payload is available.
abbrev pub NeedsPayload : {D : Type 0} → Reports → Header → Core D → Core D → Type 0
NeedsPayload reports h s t =
    ((votes_of t.sent ≡ votes_of s.sent) × (t.last_voted ≡ s.last_voted)) ⊎ IsAvailable reports h

module _ {D : Type 0} (setup : Setup D)
    (get_put : (d : D) (k j : Key) (v : Value)
      → setup.database.get (setup.database.put d k v) j
        ≡ (if k == j then ok (some v) else setup.database.get d j))
    (reports : Reports) (store : D) (fit : All Fits reports) (process : Vote → Action D (Unit {0}))
    (h : Header) (other : (h.author == setup.name) ≡ false)
    (fresh : All
      (λ e. Fits e × (setup.database.get store (payload_key e.0 e.1) ≡ ok none))
      h.payload) where
  after-NeedsPayload :
      {A : Type 0} (s : Core D) (r : Core D × Answer A) (f : A → Action D (Unit {0}))
      → Quiet s r
      → s.store ≡ receive setup.database reports store
      → ((a : A) (t : Core D)
          → t.store ≡ receive setup.database reports store
          → NeedsPayload reports h t (f a t).0)
      → NeedsPayload reports h s (after r f).0
  after-NeedsPayload s (t, done a) f q e g = elim (g a t (q.stored ∙ e)) [
    | inl (v, w) ↦ inl (v ∙ q.ballots, w ∙ q.voted)
    | inr k ↦ inr k
  ]
  after-NeedsPayload s (t, failed x) f q e g = inl (q.ballots, q.voted)
  after-NeedsPayload s (t, panicked) f q e g = inl (q.ballots, q.voted)
  after-NeedsPayload s (t, exhausted) f q e g = inl (q.ballots, q.voted)

  none_unreported : any (unreported reports) h.payload ≡ false → IsAvailable reports h
  none_unreported e = available h.payload e
    where
      available :
          (es : Reports)
          → any (unreported reports) es ≡ false
          → All (λ e. is_reported reports e.0 e.1 ≡ true) es
      available [] e = tt
      available (x ∷ es) e =
          let (p, q) = parts (is_reported reports x.0 x.1) (any (unreported reports) es) e in
          (p, available es q)
        where
          parts : (a b : Bool) → (not a || b) ≡ false → (a ≡ true) × (b ≡ false)
          parts true b e = (refl, e)
          parts false b e = absurd (cc)

  check_and_vote-NeedsPayload :
      (xs : List Certificate) (s : Core D)
      → s.store ≡ receive setup.database reports store
      → NeedsPayload reports h s (check_and_vote setup process h xs s).0
  unfolding check_and_vote
  check_and_vote-NeedsPayload xs s e =
      after-NeedsPayload s (parents_stake setup h xs 0 s) _ (parents_stake-Quiet setup h xs 0 s) e
        λ weight t e'. elim (Bool-cases (leb (quorum_threshold setup.committee) weight)) [
          | inr q ↦ rw q (inl (refl, refl))
          | inl q ↦
              let (u, m, _) =
                missing_payload_iff setup get_put reports store fit t e' h other fresh in
              let quiet : Quiet t (u, done (any (unreported reports) h.payload)) =
                rw m at (missing_payload-Quiet setup h t) in
              elim (Bool-cases (any (unreported reports) h.payload)) [
                | inl b ↦ rw (q, m, b) (inl (quiet.ballots, quiet.voted))
                | inr b ↦ inr (none_unreported b)
              ]
        ]

  -- If the database answers what was put last, digests have 32 bytes and workers are numbered by `u32`,
  -- then processing the header of another author, of whose batches the store knew none before the
  -- workers' reports, sends a vote or records one only if every batch of the header was reported by the
  -- worker that the header names for it. What the core does with its own vote does not matter.
  pub process_header-NeedsPayload :
      (s : Core D)
      → s.store ≡ receive setup.database reports store
      → NeedsPayload reports h s (process_header setup process h s).0
  unfolding process_header
  process_header-NeedsPayload s e =
      after-NeedsPayload (note_processing setup h s)
        (get_parents setup h (note_processing setup h s)) _
        (get_parents-Quiet setup h (note_processing setup h s)) e
        (elim [
          | [] ↦ λ t e'. inl (refl, refl)
          | x ∷ xs ↦ λ t e'. check_and_vote-NeedsPayload (x ∷ xs) t e'
        ])
