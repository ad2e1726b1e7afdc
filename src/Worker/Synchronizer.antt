-- ===== src/Worker/Synchronizer.antt =====
-- worker/src/synchronizer.rs: the batches that the worker waits for. The clock and the completed waits
-- are inputs; the waits themselves are the digests in `waiting`, and those that were cancelled are
-- appended to `cancelled`. The clock is in milliseconds and does not reach the end of `u128`.
pub mod Requests
use tusk_ubuntu.Prelude.{
  ℕ, ◌+◌, Bool, true, false, not, Option, none, some, List, [], ◌∷◌, ◌++◌, map, filter, length, leb,
  ltb, ◌==◌, if◌then◌else◌, u64_sub,
}
use tusk_ubuntu.Prelude.Map
use tusk_ubuntu.Prelude.Result.{Result, ok, err}
use tusk_ubuntu.Config.{
  PublicKey, SocketAddr, WorkerId, WorkerAddresses, ConfigError, Committee, worker, others_workers,
}
use tusk_ubuntu.Crypto.{Digest}
use tusk_ubuntu.Messages.{Round}
use tusk_ubuntu.Store.{Key, Value, StoreError, Database, digest_key}

-- A request to one worker, or to some of the others picked at random.
pub data Request : Type 0 where
  send : SocketAddr → List Digest → Request
  lucky_broadcast : List SocketAddr → List Digest → (nodes : ℕ) → Request

-- What the synchronizer is given and does not change.
pub record Setup (D : Type 0) : Type 0 where
  pub name : PublicKey
  pub id : WorkerId
  pub committee : Committee
  pub gc_depth : Round
  pub sync_retry_delay : ℕ
  pub sync_retry_nodes : ℕ
  pub database : Database D

pub record Synchronizer (D : Type 0) : Type 0 where
  pub store : D
  pub round : Round
  pub pending : List (Digest × (Round × ℕ))
  pub waiting : List Digest
  pub cancelled : List Digest
  pub requests : List Request

-- What the loop receives. A wait ends with its digest, cancelled, or with an error of the store.
pub data Event : Type 0 where
  synchronize : List Digest → PublicKey → (now : ℕ) → Event
  cleanup : Round → Event
  batch_silent : Round → Bool → Event
  waited : Result StoreError (Option Digest) → Event
  timer : (now : ℕ) → Event

module _ {D : Type 0} (setup : Setup D) where
  open setup use {committee, database}

  -- A new waiter for the digest.
  abbrev pub wait_for : Digest → ℕ → Synchronizer D → Synchronizer D
  wait_for digest now s = record s {
    waiting = s.waiting ++ digest ∷ [];
    pending = Map.insert digest (s.round, now) s.pending;
  }

  -- The loop over the digests of a request: the new state, and the digests that are missing. A step is
  -- given what the rest of the loop does without and with a waiter for the digest.
  unfoldable pub request_step :
      Digest
      → Synchronizer D
      → Synchronizer D × List Digest
      → Synchronizer D × List Digest
      → Synchronizer D × List Digest
  unfolding Map.contains_key
  request_step digest s skipped (s', missing) =
      if Map.contains_key digest s.pending
      then skipped
      else elim (database.get s.store (digest_key digest)) [
        | ok none ↦ (s', digest ∷ missing)
        | ok (some _) ↦ (s', missing)
        | err _ ↦ skipped
      ]

  unfoldable pub request_all : List Digest → ℕ → Synchronizer D → Synchronizer D × List Digest
  unfolding request_step
  request_all [] now s = (s, [])
  request_all (digest ∷ digests) now s =
      request_step digest s (request_all digests now s)
        (request_all digests now (wait_for digest now s))

  abbrev request_from :
      Result ConfigError WorkerAddresses → List Digest → Synchronizer D → Synchronizer D
  request_from (ok address) missing s = record s {
    requests = s.requests ++ send address.worker_to_worker missing ∷ [];
  }
  request_from (err _) missing s = s

  unfoldable pub clean : Round → Synchronizer D → Synchronizer D
  clean round s =
      let gc_round = u64_sub round setup.gc_depth in
      if ltb round setup.gc_depth then record s { round = round } else record s {
        round = round;
        cancelled = s.cancelled ++ map (λ e. e.0) (filter (λ e. leb e.1.0 gc_round) s.pending);
        pending = Map.retain (λ _ v. ltb gc_round v.0) s.pending;
      }

  unfoldable pub retry : ℕ → Synchronizer D → Synchronizer D
  retry now s =
      let old = map (λ e. e.0) (filter (λ e. ltb (e.1.1 + setup.sync_retry_delay) now) s.pending) in
      let addresses =
        map (λ e. e.1.worker_to_worker) (others_workers committee setup.name setup.id) in
      if length old == 0 then s else record s {
        requests = s.requests ++ lucky_broadcast addresses old setup.sync_retry_nodes ∷ [];
      }

  unfoldable pub turn : Event → Synchronizer D → Synchronizer D
  unfolding request_all clean retry Map.remove
  turn (synchronize digests target now) s =
      let (s', missing) = request_all digests now s in
      request_from (worker committee target setup.id) missing s'
  turn (cleanup round) s = clean round s
  turn (batch_silent _ _) s = s
  turn (waited (ok (some digest))) s = record s { pending = Map.remove digest s.pending }
  turn (waited (ok none)) s = s
  turn (waited (err _)) s = s
  turn (timer now) s = retry now s
