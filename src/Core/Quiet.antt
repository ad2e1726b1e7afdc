-- ===== src/Core/Quiet.antt =====
-- primary/src/synchronizer.rs within the core: what the checks and requests do to the state.
use tusk_ubuntu.Prelude.{
  ◌≡◌, ◌≢◌, ◌∙◌, ap, refl, inl, inr, true, false, none, some, List, [], ◌∷◌, ◌++◌, find, any,
  length, ◌==◌, Bool-cases, Option-cases,
}
use mathlib.Core.List.{append-nil}
use tusk_ubuntu.Prelude.Map
use tusk_ubuntu.Prelude.Result.{Result-cases}
use tusk_ubuntu.Config.{WorkerId}
use tusk_ubuntu.Crypto.{Digest}
use tusk_ubuntu.Messages.{Header, Vote, Certificate, DagError}
use tusk_ubuntu.Store.{digest_key, payload_key, Key}
use tusk_ubuntu.Core.{Core, Setup, Message, sync_batches, sync_parents, wait_certificate}
use tusk_ubuntu.Core.Actions.{Action, Answer, done, failed, panicked, exhausted, after, send}
use tusk_ubuntu.Core.Synchronizer.{
  genesis_digests, read_store, missing_batches, missing_payload, collect_parents, get_parents,
  deliver_parents, deliver_certificate,
}

-- The votes among the messages that were sent, in order.
unfoldable pub votes_of : List Message → List Vote
votes_of [] = []
votes_of (Message.vote _ v ∷ ms) = v ∷ votes_of ms
votes_of (m ∷ ms) = votes_of ms

pub votes_of-append : (ms ns : List Message) → votes_of (ms ++ ns) ≡ votes_of ms ++ votes_of ns
unfolding votes_of
votes_of-append [] ns = refl
votes_of-append (Message.vote a v ∷ ms) ns = ap (◌∷◌ v) (votes_of-append ms ns)
votes_of-append (Message.header _ _ ∷ ms) ns = votes_of-append ms ns
votes_of-append (Message.certificate _ _ ∷ ms) ns = votes_of-append ms ns
votes_of-append (Message.to_proposer _ _ ∷ ms) ns = votes_of-append ms ns
votes_of-append (Message.to_consensus _ ∷ ms) ns = votes_of-append ms ns
votes_of-append (Message.sync_parents _ _ ∷ ms) ns = votes_of-append ms ns
votes_of-append (Message.sync_batches _ _ ∷ ms) ns = votes_of-append ms ns
votes_of-append (Message.wait_certificate _ ∷ ms) ns = votes_of-append ms ns

module _ {D : Type 0} where
  -- The action answered, and left these fields of the state as they were.
  pub record Quiet {A : Type 0} (s : Core D) (r : Core D × Answer A) : Type 0 where
    pub answers : r.1 ≢ exhausted
    pub votes : r.0.votes_aggregator ≡ s.votes_aggregator
    pub voted : r.0.last_voted ≡ s.last_voted
    pub ballots : votes_of r.0.sent ≡ votes_of s.sent
    pub stored : r.0.store ≡ s.store

  pub after-Quiet :
      {A B : Type 0} (s : Core D) (r : Core D × Answer A) (f : A → Action D B)
      → Quiet s r
      → ((a : A) (t : Core D) → Quiet t (f a t))
      → Quiet s (after r f)
  after-Quiet s (t, done a) f q h = record {
    answers = (h a t).answers;
    votes = (h a t).votes ∙ q.votes;
    voted = (h a t).voted ∙ q.voted;
    ballots = (h a t).ballots ∙ q.ballots;
    stored = (h a t).stored ∙ q.stored;
  }
  after-Quiet s (t, failed e) f q h = record {
    answers = λ e. cc;
    votes = q.votes;
    voted = q.voted;
    ballots = q.ballots;
    stored = q.stored;
  }
  after-Quiet s (t, panicked) f q h = record {
    answers = λ e. cc;
    votes = q.votes;
    voted = q.voted;
    ballots = q.ballots;
    stored = q.stored;
  }
  after-Quiet s (t, exhausted) f q h = absurd (q.answers refl)

  pub done-Quiet : {A : Type 0} (s : Core D) (a : A) → Quiet s (s, done a)
  done-Quiet s a = record {
    answers = λ e. cc;
    votes = refl;
    voted = refl;
    ballots = refl;
    stored = refl;
  }

  pub failed-Quiet : {A : Type 0} (s : Core D) (e : DagError) → Quiet {A = A} s (s, failed e)
  failed-Quiet s e = record {
    answers = λ e. cc;
    votes = refl;
    voted = refl;
    ballots = refl;
    stored = refl;
  }

  send-Quiet :
      {A : Type 0} (s : Core D) (m : Message) (a : A)
      → votes_of (m ∷ []) ≡ []
      → Quiet s (after (send m s) (λ _ t. (t, done a)))
  send-Quiet s m a n = record {
    answers = λ e. cc;
    votes = refl;
    voted = refl;
    stored = refl;
    ballots = votes_of-append s.sent (m ∷ []) ∙ (rw n (append-nil (votes_of s.sent)));
  }

module _ {D : Type 0} (setup : Setup D) where
  read_store-Quiet : (key : Key) (s : Core D) → Quiet s (read_store setup key s)
  read_store-Quiet key s = elim (Result-cases (setup.database.get s.store key)) [
    | inl (a, e) ↦ rw e (done-Quiet s a)
    | inr (e, q) ↦ rw q (failed-Quiet s _)
  ]

  missing_batches-Quiet :
      (payload missing : List (Digest × WorkerId)) (s : Core D)
      → Quiet s (missing_batches setup payload missing s)
  unfolding missing_batches
  missing_batches-Quiet [] missing s = done-Quiet s missing
  missing_batches-Quiet ((d, w) ∷ payload) missing s =
      after-Quiet s (read_store setup (payload_key d w) s) _ (read_store-Quiet (payload_key d w) s)
        (elim [
          | none ↦ λ t. missing_batches-Quiet payload (Map.insert d w missing) t
          | some v ↦ λ t. missing_batches-Quiet payload missing t
        ])

  pub missing_payload-Quiet : (h : Header) (s : Core D) → Quiet s (missing_payload setup h s)
  unfolding votes_of missing_payload
  missing_payload-Quiet h s = elim (Bool-cases (h.author == setup.name)) [
    | inl q ↦ rw q (done-Quiet s false)
    | inr q ↦ rw q (
        after-Quiet s (missing_batches setup h.payload [] s) _
          (missing_batches-Quiet h.payload [] s)
          λ missing t. elim (Bool-cases (length missing == 0)) [
            | inl e ↦ rw e (done-Quiet t false)
            | inr e ↦ rw e (send-Quiet t (sync_batches missing h) true refl)
          ])
  ]

  collect_parents-Quiet :
      (ds : List Digest) (parents : List Certificate) (missing : List Digest) (s : Core D)
      → Quiet s (collect_parents setup ds parents missing s)
  unfolding collect_parents
  collect_parents-Quiet [] parents missing s = done-Quiet s (parents, missing)
  collect_parents-Quiet (d ∷ ds) parents missing s =
      elim (Option-cases (find (λ (e : Digest × Certificate). e.0 == d) (genesis_digests setup))) [
        | inl q ↦
            rw (q, collect_parents)
              (after-Quiet s (read_store setup (digest_key d) s) _
                (read_store-Quiet (digest_key d) s)
                (elim [
                  | none ↦ λ t. collect_parents-Quiet ds parents (missing ++ d ∷ []) t
                  | some value ↦ λ t. elim (Option-cases (setup.decode_certificate value)) [
                    | inl u ↦ rw u (failed-Quiet t _)
                    | inr (x, u) ↦ rw u (collect_parents-Quiet ds (parents ++ x ∷ []) missing t)
                  ]
                ]))
        | inr ((k, x), q) ↦
            rw (q, collect_parents) (collect_parents-Quiet ds (parents ++ x ∷ []) missing s)
      ]

  pub get_parents-Quiet : (h : Header) (s : Core D) → Quiet s (get_parents setup h s)
  unfolding votes_of get_parents
  get_parents-Quiet h s =
      after-Quiet s (collect_parents setup h.parents [] [] s) _
        (collect_parents-Quiet h.parents [] [] s)
        λ (parents, missing) t. elim (Bool-cases (length missing == 0)) [
          | inl e ↦ rw e (done-Quiet t parents)
          | inr e ↦ rw e (send-Quiet t (sync_parents missing h) [] refl)
        ]

  deliver_parents-Quiet :
      (x : Certificate) (ds : List Digest) (s : Core D) → Quiet s (deliver_parents setup x ds s)
  unfolding votes_of deliver_parents
  deliver_parents-Quiet x [] s = done-Quiet s true
  deliver_parents-Quiet x (d ∷ ds) s =
      elim (Bool-cases (any (λ (e : Digest × Certificate). e.0 == d) (genesis_digests setup))) [
        | inl q ↦ rw q (deliver_parents-Quiet x ds s)
        | inr q ↦ rw q (
            after-Quiet s (read_store setup (digest_key d) s) _ (read_store-Quiet (digest_key d) s)
              (elim [
                | none ↦ λ t. send-Quiet t (wait_certificate x) false refl
                | some v ↦ λ t. deliver_parents-Quiet x ds t
              ]))
      ]

  pub deliver_certificate-Quiet :
      (x : Certificate) (s : Core D) → Quiet s (deliver_certificate setup x s)
  unfolding deliver_certificate
  deliver_certificate-Quiet x s = deliver_parents-Quiet x x.header.parents s
