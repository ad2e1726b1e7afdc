-- ===== src/Core/Process/Total.antt =====
-- primary/src/core.rs: how deep the handlers call one another. Our own vote is counted once for a
-- header, and a second one stops at the aggregator.
use tusk_ubuntu.Prelude.{
  ℕ, suc, ◌≡◌, ◌≢◌, ◌∙◌, refl, inl, inr, true, false, none, some, List, [], ◌∷◌, leb, ◌==◌,
  if◌then◌else◌, Bool-cases, u64_add, u32_add,
}
use tusk_ubuntu.Prelude.Set
use tusk_ubuntu.Prelude.Result.{Result-cases, ok, err}
use tusk_ubuntu.Config.{Stake, PublicKey, primary, stake, quorum_threshold}
use tusk_ubuntu.Messages.{
  Header, Vote, Certificate, cert_round, cert_origin, new_vote, malformed_header, cert_digest,
  DagResult,
}
use tusk_ubuntu.Aggregators
use tusk_ubuntu.Aggregators.{append_vote}
use tusk_ubuntu.Store.{digest_key}
use tusk_ubuntu.Core.{Core, Setup}
use tusk_ubuntu.Core.Actions.{
  Action, Answer, done, failed, panicked, exhausted, after, pure, lift, unwrap_answer,
}
use tusk_ubuntu.Core.Quiet.{
  Quiet, done-Quiet, failed-Quiet, get_parents-Quiet, missing_payload-Quiet,
  deliver_certificate-Quiet,
}
use tusk_ubuntu.Core.Synchronizer.{get_parents, missing_payload, deliver_certificate}
use tusk_ubuntu.Core.Process.{
  parents_stake, cast_vote, vote_once, check_and_vote, process_header, count_vote, announce,
  process_vote, count_parent, deliver, process_certificate, is_processing, header_at, handle_header,
  handle_vote, handle_certificate, process_own_header, has_voted, note_vote, note_processing,
  store_header,
}

module _ {D : Type 0} (setup : Setup D) where
  -- Our own vote is in the aggregator.
  abbrev Counted : Core D → Type 0
  Counted s = Set.contains setup.name s.votes_aggregator.used ≡ true

  abbrev Ends : Core D × Answer (Unit {0}) → Type 0
  Ends r = r.1 ≢ exhausted

  -- After a quiet action, what holds of the votes still holds.
  after-Ends :
      {A : Type 0} (s : Core D) (r : Core D × Answer A) (f : A → Action D (Unit {0}))
      → Quiet s r
      → ((a : A) (t : Core D) → t.votes_aggregator ≡ s.votes_aggregator → Ends (f a t))
      → Ends (after r f)
  after-Ends s (t, done a) f q h = h a t q.votes
  after-Ends s (t, failed e) f q h = λ e. cc
  after-Ends s (t, panicked) f q h = λ e. cc
  after-Ends s (t, exhausted) f q h = absurd (q.answers refl)

  expect-Ends : (r : Core D × Answer (Unit {0})) → Ends r → Ends (unwrap_answer r)
  expect-Ends (t, done a) h = λ e. cc
  expect-Ends (t, failed e) h = λ e. cc
  expect-Ends (t, panicked) h = λ e. cc
  expect-Ends (t, exhausted) h = absurd (h refl)

  pub parents_stake-Quiet :
      (h : Header) (xs : List Certificate) (weight : Stake) (s : Core D)
      → Quiet s (parents_stake setup h xs weight s)
  unfolding parents_stake
  parents_stake-Quiet h [] weight s = done-Quiet s weight
  parents_stake-Quiet h (x ∷ xs) weight s =
      elim (Bool-cases (u64_add (cert_round x) 1 == h.round)) [
        | inl q ↦
            rw q
              (parents_stake-Quiet h xs (u32_add weight (stake setup.committee (cert_origin x))) s)
        | inr q ↦ rw q (failed-Quiet s (malformed_header h.id))
      ]

  -- A handler of votes that ends on our own votes lets `process_header` end, from states that satisfy
  -- a property of the votes alone.
  module _ (process : Vote → Action D (Unit {0})) (P : Core D → Type 0)
      (same : (s t : Core D) → t.votes_aggregator ≡ s.votes_aggregator → P s → P t)
      (ends : (h : Header) (s : Core D)
        → P s
        → Ends (process (new_vote setup.primitives h setup.name) s)) where
    cast_vote-Ends : (h : Header) (s : Core D) → P s → Ends (cast_vote setup process h s)
    unfolding cast_vote
    cast_vote-Ends h s p =
        elim (Bool-cases ((new_vote setup.primitives h setup.name).origin == setup.name)) [
          | inl q ↦
              rw q (expect-Ends (process (new_vote setup.primitives h setup.name) s) (ends h s p))
          | inr q ↦ elim (Result-cases (primary setup.committee h.author)) [
            | inl (a, e) ↦ rw (q, e) (λ e. cc)
            | inr (x, e) ↦ rw (q, e) (λ e. cc)
          ]
        ]

    vote_once-Ends : (h : Header) (s : Core D) → P s → Ends (vote_once setup process h s)
    unfolding vote_once
    vote_once-Ends h s p = elim (Bool-cases (has_voted setup h s)) [
      | inl q ↦ rw q (λ e. cc)
      | inr q ↦ rw q (cast_vote-Ends h (note_vote setup h s) (same s (note_vote setup h s) refl p))
    ]

    check_and_vote-Ends :
        (h : Header) (xs : List Certificate) (s : Core D)
        → P s
        → Ends (check_and_vote setup process h xs s)
    unfolding check_and_vote store_header
    check_and_vote-Ends h xs s p =
        after-Ends s (parents_stake setup h xs 0 s) _ (parents_stake-Quiet h xs 0 s) λ weight t e.
          elim (Bool-cases (leb (quorum_threshold setup.committee) weight)) [
            | inr q ↦ rw q (λ e. cc)
            | inl q ↦ rw q (
                after-Ends t (missing_payload setup h t) _ (missing_payload-Quiet setup h t) (elim [
                  | true ↦ λ u k. λ e. cc
                  | false ↦ λ u k.
                      vote_once-Ends h (store_header setup h u)
                        (same s (store_header setup h u) (k ∙ e) p)
                ]))
          ]

    process_header-Ends : (h : Header) (s : Core D) → P s → Ends (process_header setup process h s)
    unfolding process_header
    process_header-Ends h s p =
        after-Ends (note_processing setup h s) (get_parents setup h (note_processing setup h s)) _
          (get_parents-Quiet setup h (note_processing setup h s))
          (elim [
            | [] ↦ λ t e. λ e. cc
            | x ∷ xs ↦ λ t e. check_and_vote-Ends h (x ∷ xs) t (same s t e p)
          ])

  then-Ends :
      {A : Type 0} (r : Core D × Answer A) (f : A → Action D (Unit {0}))
      → r.1 ≢ exhausted
      → ((a : A) (t : Core D) → Ends (f a t))
      → Ends (after r f)
  then-Ends (t, done a) f q h = h a t
  then-Ends (t, failed e) f q h = λ e. cc
  then-Ends (t, panicked) f q h = λ e. cc
  then-Ends (t, exhausted) f q h = absurd (q refl)

  lift-answers : {A : Type 0} (r : DagResult A) (s : Core D) → (lift r s).1 ≢ exhausted
  lift-answers (ok a) s = λ e. cc
  lift-answers (err x) s = λ e. cc

  deliver-Ends : (x : Certificate) (s : Core D) → Ends (deliver setup x s)
  unfolding deliver count_parent
  deliver-Ends x s =
      then-Ends (count_parent setup x stored) _ (lift-answers _ _)
        (elim [ none ↦ λ t e. cc | some ds ↦ λ t e. cc ])
    where
      stored : Core D
      stored = record s {
        store =
            setup.database.put s.store (digest_key (cert_digest setup.primitives x))
              (setup.encode_certificate x);
      }

  process_certificate-Ends :
      (process : Header → Action D (Unit {0})) (x : Certificate) (s : Core D)
      → Ends (process x.header s)
      → Ends (process_certificate setup process x s)
  unfolding process_certificate
  process_certificate-Ends process x s h = elim (Bool-cases (is_processing setup x.header s)) [
    | inl q ↦ rw q (delivers tt s)
    | inr q ↦ rw q (then-Ends (process x.header s) _ h delivers)
  ]
    where
      delivers :
          (u : Unit {0}) (t : Core D)
          → Ends (
              after
                (deliver_certificate setup x t)
                (λ delivered. if delivered then deliver setup x else pure tt))
      delivers u t =
          then-Ends (deliver_certificate setup x t) _ (deliver_certificate-Quiet setup x t).answers
            (elim [ true ↦ λ v. deliver-Ends x v | false ↦ λ v e. cc ])

  -- A vote that was counted before stops at the aggregator; another one is counted, and is then there.
  process_vote-Ends :
      (process : Certificate → Action D (Unit {0})) (v : Vote) (s : Core D)
      → ((x : Certificate) (t : Core D)
          → Set.contains v.author t.votes_aggregator.used ≡ true
          → Ends (process x t))
      → Ends (process_vote setup process v s)
  unfolding process_vote count_vote append_vote Aggregators.count_vote announce
  process_vote-Ends process v s h =
      elim (Bool-cases (Set.contains v.author s.votes_aggregator.used)) [
        | inl q ↦ rw q (λ e. cc)
        | inr q ↦ elim (Bool-cases (leb (quorum_threshold setup.committee) weight)) [
          | inl t ↦ rw (q, t) (expect-Ends _ (h _ _ (Set.contains-insert_self v.author used)))
          | inr t ↦ rw (q, t) (λ e. cc)
        ]
      ]
    where
      used : List PublicKey
      used = s.votes_aggregator.used

      weight : Stake
      weight = u32_add s.votes_aggregator.weight (stake setup.committee v.author)

  -- An own vote that is already in the aggregator fails, whatever would come after.
  own_vote-Ends :
      (process : Certificate → Action D (Unit {0})) (h : Header) (s : Core D)
      → Counted s
      → Ends (process_vote setup process (new_vote setup.primitives h setup.name) s)
  unfolding process_vote count_vote append_vote new_vote
  own_vote-Ends process h s counted = rw counted (λ e. cc)

  header_at_one-Ends :
      (n : ℕ) (h : Header) (s : Core D) → Counted s → Ends (header_at setup (suc n) h s)
  unfolding header_at
  header_at_one-Ends n h s counted =
      process_header-Ends (process_vote setup (process_certificate setup (header_at setup n)))
        Counted (λ s t e c. rw e c)
        (λ k t c. own_vote-Ends (process_certificate setup (header_at setup n)) k t c) h s counted

  header_at_two-Ends : (h : Header) (s : Core D) → Ends (header_at setup 2 h s)
  unfolding header_at new_vote
  header_at_two-Ends h s =
      process_header-Ends (process_vote setup (process_certificate setup (header_at setup 1)))
        (λ _. Unit {0}) (λ s t e u. tt)
        (λ k t _.
          process_vote-Ends (process_certificate setup (header_at setup 1))
            (new_vote setup.primitives k setup.name) t
            λ x u c.
              process_certificate-Ends (header_at setup 1) x u (header_at_one-Ends 0 x.header u c))
        h s tt

  -- The mutually recursive handlers end, from every state: the fuel that `handle_header` is given
  -- suffices for a header, for a certificate, for a vote, and for a header of our own.
  pub handlers_end :
      (s : Core D)
      → ((h : Header) → (handle_header setup h s).1 ≢ exhausted)
        × ((x : Certificate) → (handle_certificate setup x s).1 ≢ exhausted)
        × ((v : Vote) → (handle_vote setup v s).1 ≢ exhausted)
        × ((h : Header) → (process_own_header setup h s).1 ≢ exhausted)
  unfolding handle_header handle_certificate handle_vote process_own_header
  handlers_end s = (
    λ h. header_at_two-Ends h s,
    λ x. certificate_ends x s,
    λ v. process_vote-Ends (handle_certificate setup) v s (λ x t _. certificate_ends x t),
    λ h. header_at_two-Ends h _,
  )
    where
      certificate_ends : (x : Certificate) (t : Core D) → Ends (handle_certificate setup x t)
      certificate_ends x t =
          process_certificate-Ends (handle_header setup) x t (header_at_two-Ends x.header t)
