-- ===== src/Primary/HeaderWaiter/Batches.antt =====
-- primary/src/header_waiter.rs: what the workers are asked for when a header misses batches.
use tusk_ubuntu.Prelude.{◌≡◌, List, map}
use tusk_ubuntu.Prelude.Map
use tusk_ubuntu.Prelude.Set
use tusk_ubuntu.Prelude.Set.{Distinct}
use tusk_ubuntu.Prelude.Result.{ok}
use tusk_ubuntu.Config.{PublicKey, WorkerId, WorkerAddresses, worker}
use tusk_ubuntu.Crypto.{Digest}
use tusk_ubuntu.Primary.HeaderWaiter.{Request, to_worker, Setup, HeaderWaiter}
use tusk_ubuntu.Primary.{synchronize}

module _ (setup : Setup) (author : PublicKey) (addresses : WorkerId → WorkerAddresses) where
  abbrev pub Known : WorkerId → Type 0
  Known id = worker setup.committee author id ≡ ok (addresses id)

  abbrev batches_requests : List (WorkerId × List Digest) → List Request
  batches_requests requires_sync =
      map (λ e. to_worker (addresses e.0).primary_to_worker (synchronize e.1 author)) requires_sync
