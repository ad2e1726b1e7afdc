-- ===== src/Primary/Dispatch.antt =====
-- primary/src/primary.rs: the handlers of the messages that reach a primary from other primaries and from
-- its workers. Deserialization is a parameter. A channel is the list of what was put into it; a handler
-- answers `false` if the message cannot be read, which ends the connection.
use tusk_ubuntu.Prelude.{ℕ, suc, Bool, true, false, Option, none, some, List, [], ◌∷◌, ◌++◌}
use tusk_ubuntu.Config.{PublicKey, WorkerId}
use tusk_ubuntu.Crypto.{Digest}
use tusk_ubuntu.Network.Connection.{Bytes}
use tusk_ubuntu.Primary.{
  PrimaryMessage, header, vote, certificate, certificates_request, WorkerPrimaryMessage, our_batch,
  others_batch,
}

-- `PrimaryReceiverHandler`, with the number of its acknowledgements.
pub record PrimaryReceiverHandler : Type 0 where
  pub acks : ℕ
  pub tx_primary_messages : List PrimaryMessage
  pub tx_cert_requests : List (List Digest × PublicKey)

pub record WorkerReceiverHandler : Type 0 where
  pub tx_our_digests : List (Digest × WorkerId)
  pub tx_others_digests : List (Digest × WorkerId)

unfoldable pub forward : PrimaryMessage → PrimaryReceiverHandler → PrimaryReceiverHandler
forward (certificates_request missing requestor) s = record s {
  tx_cert_requests = s.tx_cert_requests ++ (missing, requestor) ∷ [];
}
forward (header h) s = record s { tx_primary_messages = s.tx_primary_messages ++ header h ∷ [] }
forward (vote v) s = record s { tx_primary_messages = s.tx_primary_messages ++ vote v ∷ [] }
forward (certificate x) s = record s {
  tx_primary_messages = s.tx_primary_messages ++ certificate x ∷ [];
}

module _ (decode : Bytes → Option PrimaryMessage) where
  unfoldable pub dispatch_primary : Bytes → PrimaryReceiverHandler → PrimaryReceiverHandler × Bool
  unfolding forward
  dispatch_primary serialized s =
      let acked : PrimaryReceiverHandler = record s { acks = suc s.acks } in
      elim (decode serialized) [
        | none ↦ (acked, false)
        | some message ↦ (forward message acked, true)
      ]

unfoldable pub forward_digest : WorkerPrimaryMessage → WorkerReceiverHandler → WorkerReceiverHandler
forward_digest (our_batch digest worker_id) s = record s {
  tx_our_digests = s.tx_our_digests ++ (digest, worker_id) ∷ [];
}
forward_digest (others_batch digest worker_id) s = record s {
  tx_others_digests = s.tx_others_digests ++ (digest, worker_id) ∷ [];
}

module _ (decode : Bytes → Option WorkerPrimaryMessage) where
  unfoldable pub dispatch_worker : Bytes → WorkerReceiverHandler → WorkerReceiverHandler × Bool
  unfolding forward_digest
  dispatch_worker serialized s = elim (decode serialized) [
    | none ↦ (s, false)
    | some message ↦ (forward_digest message s, true)
  ]
