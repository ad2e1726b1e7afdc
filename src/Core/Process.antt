-- ===== src/Core/Process.antt =====
-- primary/src/core.rs: the handlers of headers, votes and certificates. They call one another; each
-- takes the handler that it calls, and `header_at` ties the knot with fuel.
pub mod Voting
pub mod Total
use tusk_ubuntu.Prelude.{
  ℕ, zero, suc, ◌+◌, Bool, true, false, not, ◌&&◌, ◌||◌, Option, none, some, List, [], ◌∷◌, ◌++◌,
  map, leb, ltb, ◌==◌, if◌then◌else◌, u32_add, u64_add, u64_sub,
}
use tusk_ubuntu.Prelude.Map
use tusk_ubuntu.Prelude.Set
use tusk_ubuntu.Prelude.Result
use tusk_ubuntu.Config.{
  Stake, PublicKey, SocketAddr, Committee, stake, quorum_threshold, primary, others_primaries,
}
use tusk_ubuntu.Crypto.{Digest}
use tusk_ubuntu.Messages.{
  Round, DagError, malformed_header, header_requires_quorum, too_old, unexpected_vote, DagResult,
  Header, Vote, Certificate, cert_round, cert_origin, cert_digest, vote_digest, new_vote,
  verify_header, verify_vote, verify_certificate,
}
use tusk_ubuntu.Aggregators.{
  VotesAggregator, new_votes, append_vote, CertificatesAggregator, new_certificates,
  append_certificate,
}
use tusk_ubuntu.Store.{digest_key}
use tusk_ubuntu.Core.{Core, Setup, Message, header, vote, certificate, to_proposer, to_consensus}
use tusk_ubuntu.Core.Actions.{
  Action, Answer, done, failed, panicked, exhausted, after, ◌>>=◌, ◌>>◌, pure, modify, get, send,
  lift, ensure, expect, expect_ok, unwrap_answer,
}
use tusk_ubuntu.Core.Synchronizer.{get_parents, missing_payload, deliver_certificate}

module _ {D : Type 0} (setup : Setup D) where
  open setup use {name, committee, primitives, database, encode_header, encode_certificate}

  -- `cancel_handlers.entry(round).or_insert_with(Vec::new).extend(handlers)`
  abbrev pub keep_handlers : Round → List SocketAddr → Action D (Unit {0})
  keep_handlers round handlers = modify λ s. record s {
    cancel_handlers =
        Map.insert round (Map.entry_or round [] s.cancel_handlers ++ handlers) s.cancel_handlers;
  }

  unfoldable pub others_addresses : List SocketAddr
  others_addresses = map (λ e. e.1.primary_to_primary) (others_primaries committee name)

  -- The loop over the parents of a header.
  unfoldable pub parents_stake : Header → List Certificate → Stake → Action D Stake
  parents_stake h [] weight = pure weight
  parents_stake h (x ∷ xs) weight =
      ensure (u64_add (cert_round x) 1 == h.round) (malformed_header h.id)
      >> parents_stake h xs (u32_add weight (stake committee (cert_origin x)))

  abbrev pub note_processing : Header → Core D → Core D
  note_processing h s = record s {
    processing =
        Map.insert h.round (Set.insert h.id (Map.entry_or h.round [] s.processing)) s.processing;
  }

  abbrev pub note_vote : Header → Core D → Core D
  note_vote h s = record s {
    last_voted =
        Map.insert h.round (Set.insert h.author (Map.entry_or h.round [] s.last_voted))
          s.last_voted;
  }

  abbrev pub has_voted : Header → Core D → Bool
  has_voted h s = Set.contains h.author (Map.entry_or h.round [] s.last_voted)

  -- The vote for a header: to ourselves, or to the header's author.
  unfoldable pub cast_vote : (Vote → Action D (Unit {0})) → Header → Action D (Unit {0})
  cast_vote process_vote h =
      let v = new_vote primitives h name in
      if v.origin == name
      then expect (process_vote v)
      else (expect_ok (primary committee h.author) >>= λ a.
          send (vote a.primary_to_primary v) >> keep_handlers h.round (a.primary_to_primary ∷ []))

  -- `process_header` from the point where the payload is at hand.
  unfoldable pub vote_once : (Vote → Action D (Unit {0})) → Header → Action D (Unit {0})
  unfolding cast_vote
  vote_once process_vote h s =
      if has_voted h s then (s, done tt) else cast_vote process_vote h (note_vote h s)

  unfoldable pub store_header : Header → Core D → Core D
  store_header h s = record s { store = database.put s.store (digest_key h.id) (encode_header h) }

  unfoldable pub check_and_vote :
      (Vote → Action D (Unit {0})) → Header → List Certificate → Action D (Unit {0})
  unfolding parents_stake store_header vote_once
  check_and_vote process_vote h parents = do
    weight ← parents_stake h parents 0
    ensure (leb (quorum_threshold committee) weight) (header_requires_quorum h.id)
    missing ← missing_payload setup h
    if missing then pure tt else (modify (store_header h) >> vote_once process_vote h)

  unfoldable pub process_header : (Vote → Action D (Unit {0})) → Header → Action D (Unit {0})
  unfolding check_and_vote
  process_header process_vote h = do
    modify (note_processing h)
    parents ← get_parents setup h
    elim parents [ [] ↦ pure tt | x ∷ xs ↦ check_and_vote process_vote h (x ∷ xs) ]

  -- `append` on the aggregator, which is updated also when it fails.
  unfoldable pub count_vote : Vote → Action D (Option Certificate)
  count_vote v s =
      let (agg, r) = append_vote s.votes_aggregator v committee s.current_header in
      lift r (record s { votes_aggregator = agg })

  unfoldable pub announce : Certificate → Action D (Unit {0})
  unfolding others_addresses
  announce x =
      send (certificate others_addresses x) >> keep_handlers (cert_round x) others_addresses

  unfoldable pub process_vote : (Certificate → Action D (Unit {0})) → Vote → Action D (Unit {0})
  unfolding count_vote announce
  process_vote process_certificate v = count_vote v >>= λ assembled. elim assembled [
    | none ↦ pure tt
    | some x ↦ announce x >> expect (process_certificate x)
  ]

  unfoldable pub is_processing : Header → Core D → Bool
  is_processing h s = Set.contains h.id (Map.entry_or h.round [] s.processing)

  unfoldable pub count_parent : Certificate → Action D (Option (List Digest))
  count_parent x s =
      let old = Map.entry_or (cert_round x) new_certificates s.certificates_aggregators in
      let (agg, r) = append_certificate primitives old x committee in
      lift r (record s {
        certificates_aggregators = Map.insert (cert_round x) agg s.certificates_aggregators;
      })

  -- `process_certificate` from the point where the ancestors are at hand.
  unfoldable pub deliver : Certificate → Action D (Unit {0})
  unfolding count_parent
  deliver x = do
    modify (λ s. record s {
      store = database.put s.store (digest_key (cert_digest primitives x)) (encode_certificate x);
    })
    parents ← count_parent x
    elim parents [ none ↦ pure tt | some ds ↦ send (to_proposer ds (cert_round x)) ]
    send (to_consensus x)

  unfoldable pub process_certificate :
      (Header → Action D (Unit {0})) → Certificate → Action D (Unit {0})
  unfolding is_processing deliver
  process_certificate process_header x s =
      after (if is_processing x.header s then (s, done tt) else process_header x.header s)
        λ _. deliver_certificate setup x >>= λ delivered. if delivered then deliver x else pure tt

  unfoldable pub header_at : ℕ → Header → Action D (Unit {0})
  unfolding process_header process_vote process_certificate
  header_at zero h = λ s. (s, exhausted)
  header_at (suc n) h = process_header (process_vote (process_certificate (header_at n))) h

  unfoldable pub handle_header : Header → Action D (Unit {0})
  unfolding header_at
  handle_header = header_at 2

  unfoldable pub handle_certificate : Certificate → Action D (Unit {0})
  unfolding handle_header
  handle_certificate = process_certificate handle_header

  unfoldable pub handle_vote : Vote → Action D (Unit {0})
  unfolding handle_certificate
  handle_vote = process_vote handle_certificate

  unfoldable pub process_own_header : Header → Action D (Unit {0})
  unfolding handle_header others_addresses
  process_own_header h = do
    modify (λ s. record s { current_header = h; votes_aggregator = new_votes })
    send (header others_addresses h)
    keep_handlers h.round others_addresses
    handle_header h

  unfoldable pub sanitize_header : Core D → Header → DagResult (Unit {0})
  sanitize_header s h =
      if leb s.gc_round h.round
      then verify_header primitives committee h
      else Result.err (too_old h.id h.round)

  unfoldable pub sanitize_vote : Core D → Vote → DagResult (Unit {0})
  sanitize_vote s v =
      let current = s.current_header in
      if not (leb current.round v.round)
      then Result.err (too_old (vote_digest primitives v) v.round)
      else if v.id == current.id && (v.origin == current.author && v.round == current.round)
      then verify_vote primitives committee v
      else Result.err (unexpected_vote v.id)

  unfoldable pub sanitize_certificate : Core D → Certificate → DagResult (Unit {0})
  sanitize_certificate s x =
      if leb s.gc_round (cert_round x)
      then verify_certificate primitives committee x
      else Result.err (too_old (cert_digest primitives x) (cert_round x))
