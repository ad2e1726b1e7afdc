-- ===== src/Worker/Dispatch.antt =====
-- worker/src/worker.rs: the handlers of the messages that reach a worker from clients, from other workers
-- and from its primary. Deserialization is a parameter. A channel is the list of what was put into it;
-- the tasks at their ends do not stop, so putting into one succeeds. A handler answers `true` if the
-- connection goes on.
pub mod Silence
use tusk_ubuntu.Prelude.{
  ℕ, suc, ◌≡◌, ◌≤◌, Bool, true, false, Option, none, some, List, [], ◌∷◌, ◌++◌, leb, if◌then◌else◌,
  arith,
}
use tusk_ubuntu.Config.{PublicKey}
use tusk_ubuntu.Crypto.{Digest}
use tusk_ubuntu.Messages.{Round}
use tusk_ubuntu.Network.Connection.{Bytes}
use tusk_ubuntu.Primary.{PrimaryWorkerMessage, synchronize, cleanup, batch_silent}
use tusk_ubuntu.Worker.BatchMaker.{Batch, Transaction}

pub data WorkerMessage : Type 0 where
  batch : Batch → WorkerMessage
  batch_request : List Digest → (origin : PublicKey) → WorkerMessage

-- `TxReceiverHandler::dispatch`: the transactions sent to the batch maker.
unfoldable pub dispatch_transaction : Bytes → List Transaction → List Transaction × Bool
dispatch_transaction message tx_batch_maker = (tx_batch_maker ++ message ∷ [], true)

-- `WorkerReceiverHandler`, with the number of its acknowledgements.
pub record WorkerReceiverHandler : Type 0 where
  pub acks : ℕ
  pub tx_helper : List (List Digest × PublicKey)
  pub tx_processor : List Bytes

-- `PrimaryReceiverHandler`; the watch holds one value.
pub record PrimaryReceiverHandler : Type 0 where
  pub acks : ℕ
  pub tx_synchronizer : List PrimaryWorkerMessage
  pub tx_batch_silent : Round × Bool

module _ (decode : Bytes → Option WorkerMessage) where
  unfoldable pub dispatch_worker : Bytes → WorkerReceiverHandler → WorkerReceiverHandler × Bool
  dispatch_worker serialized s =
      let acks = suc s.acks in
      elim (decode serialized) [
        | none ↦ (record s { acks = acks }, true)
        | some (batch _) ↦
            (record s { acks = acks; tx_processor = s.tx_processor ++ serialized ∷ [] }, true)
        | some (batch_request missing requestor) ↦
            (record s { acks = acks; tx_helper = s.tx_helper ++ (missing, requestor) ∷ [] }, true)
      ]

unfoldable pub dispatch_command :
    PrimaryWorkerMessage → PrimaryReceiverHandler → PrimaryReceiverHandler
dispatch_command (batch_silent round silent) s =
    if leb s.tx_batch_silent.0 round then record s { tx_batch_silent = (round, silent) } else s
dispatch_command (synchronize digests target) s = record s {
  tx_synchronizer = s.tx_synchronizer ++ synchronize digests target ∷ [];
}
dispatch_command (cleanup round) s = record s {
  tx_synchronizer = s.tx_synchronizer ++ cleanup round ∷ [];
}

module _ (decode : Bytes → Option PrimaryWorkerMessage) where
  unfoldable pub dispatch_primary : Bytes → PrimaryReceiverHandler → PrimaryReceiverHandler × Bool
  unfolding dispatch_command
  dispatch_primary serialized s =
      let acked : PrimaryReceiverHandler = record s { acks = suc s.acks } in
      elim (decode serialized) [
        | none ↦ (acked, true)
        | some message ↦ (dispatch_command message acked, true)
      ]
