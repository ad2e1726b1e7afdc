-- ===== src/Primary/HeaderWaiter.antt =====
-- primary/src/header_waiter.rs: the headers that wait for batches or parents, and the requests for these.
-- The clock, the completed waits, and `consensus_round` when it is loaded are inputs; a wait is the keys
-- that it needs with the header that it delivers, and `cancelled` are the headers whose wait was told to
-- stop. The clock is in milliseconds and does not reach the end of `u128`.
pub mod Parents
pub mod Asked
pub mod Batches
pub mod Cleanup
use tusk_ubuntu.Prelude.{
  ℕ, ◌+◌, Bool, true, false, Option, none, some, List, [], ◌∷◌, ◌++◌, map, filter, length, leb, ltb,
  ◌==◌, if◌then◌else◌, u64_sub,
}
use tusk_ubuntu.Prelude.Map
use tusk_ubuntu.Prelude.Result
use tusk_ubuntu.Prelude.Result.{Result, ok, err}
use tusk_ubuntu.Prelude.Outcome.{Outcome, returned, panicked, ◌>>=◌}
use tusk_ubuntu.Config.{
  PublicKey, SocketAddr, WorkerId, PrimaryAddresses, WorkerAddresses, ConfigError, Committee,
  primary, worker, others_primaries,
}
use tusk_ubuntu.Crypto.{Digest}
use tusk_ubuntu.Messages.{Round, Header}
use tusk_ubuntu.Store.{Key, StoreError, digest_key, payload_key}
use tusk_ubuntu.Primary.{PrimaryMessage, certificates_request, PrimaryWorkerMessage, synchronize}

-- A message to a worker, to one primary, or to some of the others picked at random.
pub data Request : Type 0 where
  to_worker : SocketAddr → PrimaryWorkerMessage → Request
  to_primary : SocketAddr → PrimaryMessage → Request
  lucky_broadcast : List SocketAddr → PrimaryMessage → (nodes : ℕ) → Request

pub record Setup : Type 0 where
  pub name : PublicKey
  pub committee : Committee
  pub gc_depth : Round
  pub sync_retry_delay : ℕ
  pub sync_retry_nodes : ℕ

pub record HeaderWaiter : Type 0 where
  pub parent_requests : List (Digest × (Round × ℕ))
  pub batch_requests : List (Digest × Round)
  pub pending : List (Digest × Round)
  pub waiting : List (List Key × Header)
  pub cancelled : List Digest
  pub requests : List Request
  pub to_core : List Header

pub data Event : Type 0 where
  sync_batches : List (Digest × WorkerId) → Header → Event
  sync_parents : List Digest → Header → (now : ℕ) → Event
  waited : Result StoreError (Option Header) → Event
  timer : (now : ℕ) → Event

-- The loop over the batches of a header: the requests on record, and those to send, by worker.
unfoldable pub note_batches :
    Round
    → List (Digest × WorkerId)
    → List (Digest × Round)
    → List (WorkerId × List Digest)
    → List (Digest × Round) × List (WorkerId × List Digest)
unfolding Map.contains_key Map.insert Map.entry_or
note_batches round [] noted requires_sync = (noted, requires_sync)
note_batches round ((digest, id) ∷ missing) noted requires_sync =
    let skipped = note_batches round missing noted requires_sync in
    let asked =
      note_batches round missing (Map.insert digest round noted)
        (Map.insert id (Map.entry_or id [] requires_sync ++ digest ∷ []) requires_sync) in
    if Map.contains_key digest noted then skipped else asked

-- The loop over the parents of a header: the requests on record, and the digests to ask for.
unfoldable pub note_parents :
    Round × ℕ
    → List Digest
    → List (Digest × (Round × ℕ))
    → List (Digest × (Round × ℕ)) × List Digest
unfolding Map.contains_key Map.insert
note_parents entry [] noted = (noted, [])
note_parents entry (digest ∷ missing) noted =
    let skipped = note_parents entry missing noted in
    let (noted', requires_sync) = note_parents entry missing (Map.insert digest entry noted) in
    if Map.contains_key digest noted then skipped else (noted', digest ∷ requires_sync)

unfoldable pub remove_all {ℓ} : {V : Type ℓ} → List ℕ → List (ℕ × V) → List (ℕ × V)
unfolding Map.remove
remove_all [] m = m
remove_all (k ∷ ks) m = remove_all ks (Map.remove k m)

module _ (setup : Setup) where
  open setup use {committee}

  -- The header joins the pending ones, and its wait begins.
  abbrev pub wait_for : List Key → Header → HeaderWaiter → HeaderWaiter
  wait_for keys h s = record s {
    pending = Map.insert h.id h.round s.pending;
    waiting = s.waiting ++ (keys, h) ∷ [];
  }

  abbrev pub ask_worker :
      PublicKey
      → List Digest
      → Result ConfigError WorkerAddresses
      → HeaderWaiter
      → Outcome HeaderWaiter
  ask_worker author digests (err e) s = panicked
  ask_worker author digests (ok address) s = returned (record s {
    requests = s.requests ++ to_worker address.primary_to_worker (synchronize digests author) ∷ [];
  })

  -- The loop that sends one request to each worker.
  unfoldable pub ask_workers :
      PublicKey → List (WorkerId × List Digest) → HeaderWaiter → Outcome HeaderWaiter
  ask_workers author [] s = returned s
  ask_workers author ((id, digests) ∷ requires_sync) s =
      ask_worker author digests (worker committee author id) s >>= ask_workers author requires_sync

  unfoldable pub handle_batches :
      List (Digest × WorkerId) → Header → HeaderWaiter → Outcome HeaderWaiter
  unfolding note_batches ask_workers
  handle_batches missing h s =
      let (noted, requires_sync) = note_batches h.round missing s.batch_requests [] in
      let keys = map (λ e. payload_key e.0 e.1) missing in
      ask_workers h.author requires_sync (record (wait_for keys h s) { batch_requests = noted })

  abbrev pub ask_primary :
      List Digest → Result ConfigError PrimaryAddresses → HeaderWaiter → Outcome HeaderWaiter
  ask_primary [] address s = returned s
  ask_primary (d ∷ ds) (err e) s = panicked
  ask_primary (d ∷ ds) (ok address) s = returned (record s {
    requests =
        s.requests
        ++ to_primary address.primary_to_primary (certificates_request (d ∷ ds) setup.name) ∷ [];
  })

  unfoldable pub handle_parents : List Digest → Header → ℕ → HeaderWaiter → Outcome HeaderWaiter
  unfolding note_parents
  handle_parents missing h now s =
      let (noted, requires_sync) = note_parents (h.round, now) missing s.parent_requests in
      ask_primary requires_sync (primary committee h.author)
        (record (wait_for (map digest_key missing) h s) { parent_requests = noted })

  -- A wait that ended: the header goes back to the core, and what it asked for is forgotten.
  unfoldable pub resume : Header → HeaderWaiter → HeaderWaiter
  unfolding remove_all
  resume h s = record s {
    pending = Map.remove h.id s.pending;
    batch_requests = remove_all (map (λ e. e.0) h.payload) s.batch_requests;
    parent_requests = remove_all h.parents s.parent_requests;
    to_core = s.to_core ++ h ∷ [];
  }

  unfoldable pub retry : ℕ → HeaderWaiter → HeaderWaiter
  retry now s =
      let late = filter (λ e. ltb (e.1.1 + setup.sync_retry_delay) now) s.parent_requests in
      let addresses = map (λ e. e.1.primary_to_primary) (others_primaries committee setup.name) in
      record s {
        requests =
            s.requests
            ++ lucky_broadcast addresses (certificates_request (map (λ e. e.0) late) setup.name)
                setup.sync_retry_nodes
              ∷ [];
      }

  unfoldable pub clean : Round → HeaderWaiter → HeaderWaiter
  clean round s =
      let gc_round = u64_sub round setup.gc_depth in
      if ltb setup.gc_depth round
      then record s {
        cancelled = s.cancelled ++ map (λ e. e.0) (filter (λ e. leb e.1 gc_round) s.pending);
        pending = Map.retain (λ _ r. ltb gc_round r) s.pending;
        batch_requests = Map.retain (λ _ r. ltb gc_round r) s.batch_requests;
        parent_requests = Map.retain (λ _ v. ltb gc_round v.0) s.parent_requests;
      }
      else s

  -- The rest of a turn for a header, unless it is pending: then the loop goes on at once.
  abbrev pub unless_pending :
      Round → Header → (HeaderWaiter → Outcome HeaderWaiter) → HeaderWaiter → Outcome HeaderWaiter
  unless_pending round h next s =
      if Map.contains_key h.id s.pending
      then returned s
      else (next s >>= λ t. returned (clean round t))

  unfoldable pub turn : Round → Event → HeaderWaiter → Outcome HeaderWaiter
  unfolding handle_batches handle_parents resume retry clean Map.contains_key
  turn round (sync_batches missing h) s = unless_pending round h (handle_batches missing h) s
  turn round (sync_parents missing h now) s =
      unless_pending round h (handle_parents missing h now) s
  turn round (waited (ok (some h))) s = returned (clean round (resume h s))
  turn round (waited (ok none)) s = returned (clean round s)
  turn round (waited (err _)) s = panicked
  turn round (timer now) s = returned (clean round (retry now s))
