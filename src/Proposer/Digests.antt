-- ===== src/Proposer/Digests.antt =====
-- primary/src/proposer.rs: the batches' digests that the proposer received, and where they are.
use tusk_ubuntu.Prelude.{
  ◌≡◌, ◌*◌, ◌%◌, refl, Bool, true, false, not, ◌&&◌, ◌||◌, List, [], ◌∷◌, ◌++◌, length,
  length-append, ltb, leb, ◌==◌, if◌then◌else◌, Bool-cases, inl, inr, arith, u64_mod,
}
use tusk_ubuntu.Prelude.Btree
use tusk_ubuntu.Config.{WorkerId}
use tusk_ubuntu.Crypto.{Digest}
use tusk_ubuntu.Messages.{Round, Header, new_header}
use tusk_ubuntu.Proposer.{
  Setup, Proposer, Event, parents, batch, timer, enter_round, make_header, propose, receive, turn,
  run, start,
}

-- Whether a list of digests with their workers, or a header's payload, has the digest.
unfoldable pub mentions : Digest → List (Digest × WorkerId) → Bool
mentions d [] = false
mentions d ((k, _) ∷ entries) = k == d || mentions d entries

mentions-append :
    (d : Digest) (l m : List (Digest × WorkerId))
    → mentions d (l ++ m) ≡ (mentions d l || mentions d m)
unfolding mentions
mentions-append d [] m = refl
mentions-append d ((k, w) ∷ l) m = ground (arith, mentions-append d l m)

mentions-insert :
    (d k : Digest) (w : WorkerId) (m : List (Digest × WorkerId))
    → mentions d (Btree.insert k w m) ≡ (k == d || mentions d m)
unfolding mentions Btree.insert
mentions-insert d k w [] = refl
mentions-insert d k w ((j, v) ∷ m) = ground (arith, mentions-insert d k w m)

mentions-collect_into :
    (d : Digest) (m entries : List (Digest × WorkerId))
    → mentions d (Btree.collect_into m entries) ≡ (mentions d m || mentions d entries)
unfolding mentions Btree.collect_into
mentions-collect_into d m [] = ground arith
mentions-collect_into d m ((k, w) ∷ entries) =
    ground (arith, mentions-collect_into d (Btree.insert k w m) entries, mentions-insert d k w m)

mentions-collect :
    (d : Digest) (entries : List (Digest × WorkerId))
    → mentions d (Btree.collect entries) ≡ mentions d entries
unfolding mentions Btree.collect
mentions-collect d entries = mentions-collect_into d [] entries

-- The digests that the workers report, in their order.
unfoldable pub reports : Event → List (Digest × WorkerId)
reports (parents ds round) = []
reports (batch d w) = (d, w) ∷ []
reports timer = []

unfoldable pub reported : List (Bool × Event) → List (Digest × WorkerId)
unfolding reports
reported [] = []
reported ((_, e) ∷ turns) = reports e ++ reported turns

-- Whether a header has the digest in its payload.
unfoldable pub proposed : Digest → List Header → Bool
unfolding mentions
proposed d [] = false
proposed d (h ∷ hs) = mentions d h.payload || proposed d hs

proposed-append :
    (d : Digest) (hs ks : List Header) → proposed d (hs ++ ks) ≡ (proposed d hs || proposed d ks)
unfolding proposed
proposed-append d [] ks = refl
proposed-append d (h ∷ hs) ks = ground (arith, proposed-append d hs ks)

-- Whether the proposer has the digest: in a header that it made or among those that wait.
unfoldable pub has : Digest → Proposer → Bool
unfolding mentions proposed
has d s = proposed d s.headers || mentions d s.digests

-- The counter that the proposer compares with the header size: 32 bytes for each waiting digest.
abbrev pub IsCounted : Proposer → Type 0
IsCounted s = s.payload_size ≡ (32 * length s.digests) % u64_mod

module _ (setup : Setup) where
  -- What holds before a proposal, of the silent branch and of the header's branch, holds after it.
  propose-holds {κ} :
      (P : Proposer → Type κ) (expired : Bool) (s : Proposer)
      → P s
      → P (record s { last_parents = [] })
      → P (record (make_header setup s) { payload_size = 0 })
      → P (propose setup expired s)
  unfolding propose
  propose-holds P expired s f g h =
      elim (Bool-cases
        ((expired || leb setup.header_size s.payload_size) && not (length s.last_parents == 0))) [
          | inr q ↦ rw q f
          | inl q ↦ rw q (either s.silent _ _ g h)
        ]
    where
      either : (b : Bool) (x y : Proposer) → P x → P y → P (if b then x else y)
      either true x y f g = f
      either false x y f g = g

  -- Parents change the round, the silence, the parents and the messages to the workers at most.
  receive-holds {κ} :
      (P : Proposer → Type κ) (ds : List Digest) (round : Round) (s : Proposer)
      → P s
      → ((r : Round) (q : Bool) (sent : List (Round × Bool))
          → P (record s { round = r; silent = q; last_parents = ds; batch_silent = sent }))
      → P (receive setup (parents ds round) s)
  unfolding receive enter_round
  receive-holds P ds round s f g = elim (Bool-cases (ltb round s.round)) [
    | inl q ↦ rw q f
    | inr q ↦ elim (Bool-cases (setup.adversary_faults == 0)) [
      | inl t ↦ rw (q, t) (g _ _ _)
      | inr t ↦ rw (q, t) (g _ _ _)
    ]
  ]

  make_header-has : (d : Digest) (s : Proposer) → has d (make_header setup s) ≡ has d s
  unfolding has make_header new_header proposed mentions
  make_header-has d s = ground (
    arith,
    mentions-collect d s.digests,
    proposed-append d s.headers (
        new_header setup.primitives setup.name s.round (Btree.collect s.digests)
          (Btree.collect_set s.last_parents)
        ∷ []),
  )

  propose-has :
      (expired : Bool) (d : Digest) (s : Proposer) → has d (propose setup expired s) ≡ has d s
  unfolding has make_header
  propose-has expired d s =
      propose-holds (λ t. has d t ≡ has d s) expired s refl refl (make_header-has d s)

  propose-IsCounted :
      (expired : Bool) (s : Proposer) → IsCounted s → IsCounted (propose setup expired s)
  unfolding make_header
  propose-IsCounted expired s h = propose-holds IsCounted expired s h h refl

  receive-has :
      (e : Event) (d : Digest) (s : Proposer)
      → has d (receive setup e s) ≡ (has d s || mentions d (reports e))
  unfolding receive has mentions reports
  receive-has (parents ds round) d s =
      receive-holds (λ t. has d t ≡ (has d s || false)) ds round s (ground arith)
        (λ r q sent. ground arith)
  receive-has (batch k w) d s = ground (arith, mentions-append d s.digests ((k, w) ∷ []))
  receive-has timer d s = ground arith

  receive-IsCounted : (e : Event) (s : Proposer) → IsCounted s → IsCounted (receive setup e s)
  unfolding receive enter_round
  receive-IsCounted (parents ds round) s h = receive-holds IsCounted ds round s h (λ r q sent. h)
  receive-IsCounted (batch k w) s h =
      let count = length-append s.digests ((k, w) ∷ []) in omega (arith, h, count)
  receive-IsCounted timer s h = h

  run-has :
      (d : Digest) (turns : List (Bool × Event)) (s : Proposer)
      → has d (run setup turns s) ≡ (has d s || mentions d (reported turns))
  unfolding run turn mentions reported
  run-has d [] s = ground arith
  run-has d ((expired, e) ∷ turns) s =
      let s' = propose setup expired s in
      ground (
        arith,
        run-has d turns (receive setup e s'),
        receive-has e d s',
        propose-has expired d s,
        mentions-append d (reports e) (reported turns),
      )

  run-IsCounted :
      (turns : List (Bool × Event)) (s : Proposer) → IsCounted s → IsCounted (run setup turns s)
  unfolding run turn
  run-IsCounted [] s h = h
  run-IsCounted ((expired, e) ∷ turns) s h =
      run-IsCounted turns (receive setup e (propose setup expired s))
        (receive-IsCounted e (propose setup expired s) (propose-IsCounted expired s h))

  start-has :
      (d : Digest) (genesis : List Digest)
      → (has d (start setup genesis) ≡ false) × IsCounted (start setup genesis)
  unfolding start enter_round has mentions proposed
  start-has d genesis = elim (Bool-cases (setup.adversary_faults == 0)) [
    | inl q ↦ rw q (refl, refl)
    | inr q ↦ rw q (refl, refl)
  ]

  -- From its start, over any sequence of turns, the digests that the proposer has, in the payload of a
  -- header that it made or among those that wait for the next one, are exactly those that the workers
  -- reported. The counter that it compares with the header size is 32 bytes, wrapping at `u64`, for each
  -- waiting digest.
  pub run-reports :
      (genesis : List Digest) (turns : List (Bool × Event)) (d : Digest)
      → (has d (run setup turns (start setup genesis)) ≡ mentions d (reported turns))
        × IsCounted (run setup turns (start setup genesis))
  run-reports genesis turns d =
      let s = start setup genesis in
      let (none_yet, counted) = start-has d genesis in
      (ground (arith, run-has d turns s, none_yet), run-IsCounted turns s counted)
