-- ===== src/Worker/Helper.antt =====
-- worker/src/helper.rs: the task that answers the batch requests of other workers.
use tusk_ubuntu.Prelude.{Option, none, some, List, [], ◌∷◌, ◌++◌}
use tusk_ubuntu.Prelude.Result.{Result, ok, err}
use tusk_ubuntu.Config.{
  PublicKey, SocketAddr, WorkerId, WorkerAddresses, ConfigError, Committee, worker,
}
use tusk_ubuntu.Crypto.{Digest}
use tusk_ubuntu.Store.{Value, StoreError, Database, digest_key}

module _ {D : Type 0} (id : WorkerId) (committee : Committee) (database : Database D)
    (store : D) where
  abbrev pub found : SocketAddr → Result StoreError (Option Value) → List (SocketAddr × Value)
  found address (ok (some value)) = (address, value) ∷ []
  found address (ok none) = []
  found address (err _) = []

  -- The loop over the digests of a request: the batches that are sent.
  unfoldable pub reply : SocketAddr → List Digest → List (SocketAddr × Value)
  reply address [] = []
  reply address (digest ∷ digests) =
      found address (database.get store (digest_key digest)) ++ reply address digests

  abbrev reply_at : Result ConfigError WorkerAddresses → List Digest → List (SocketAddr × Value)
  reply_at (ok address) digests = reply address.worker_to_worker digests
  reply_at (err _) digests = []

  unfoldable pub answer : List Digest → PublicKey → List (SocketAddr × Value)
  unfolding reply
  answer digests origin = reply_at (worker committee origin id) digests

  -- The whole loop, over the requests that the task receives.
  unfoldable pub run : List (List Digest × PublicKey) → List (SocketAddr × Value)
  unfolding answer
  run [] = []
  run ((digests, origin) ∷ requests) = answer digests origin ++ run requests
