-- ===== src/Worker/Processor.antt =====
-- worker/src/processor.rs: the task that hashes and stores batches, and primary_connector.rs, which sends
-- the digests to the primary. Serialization is a parameter.
pub mod Stored
use tusk_ubuntu.Prelude.{ℕ, Bool, true, false, List, [], ◌∷◌, ◌++◌}
use tusk_ubuntu.Config.{SocketAddr, WorkerId}
use tusk_ubuntu.Crypto.{Digest, Primitives}
use tusk_ubuntu.Store.{Value, Database, digest_key}
use tusk_ubuntu.Network.Connection.{Bytes}
use tusk_ubuntu.Primary.{WorkerPrimaryMessage, our_batch, others_batch}

pub record Setup (D : Type 0) : Type 0 where
  pub id : WorkerId
  pub own_digest : Bool
  pub primitives : Primitives
  pub database : Database D
  pub encode : WorkerPrimaryMessage → Bytes

-- The store, and what was sent to `tx_digest`.
pub record Processor (D : Type 0) : Type 0 where
  pub store : D
  pub digests : List Bytes

abbrev pub message_for : Bool → Digest → WorkerId → WorkerPrimaryMessage
message_for true digest id = our_batch digest id
message_for false digest id = others_batch digest id

module _ {D : Type 0} (setup : Setup D) where
  open setup use {id, own_digest, primitives, database, encode}

  unfoldable pub process : Value → Processor D → Processor D
  process batch s =
      let digest = primitives.sha512 batch in
      record {
        store = database.put s.store (digest_key digest) batch;
        digests = s.digests ++ encode (message_for own_digest digest id) ∷ [];
      }

  unfoldable pub run : List Value → Processor D → Processor D
  unfolding process
  run [] s = s
  run (batch ∷ batches) s = run batches (process batch s)

-- `PrimaryConnector::run`: what is sent, and to which address.
unfoldable pub connect_primary : SocketAddr → List Bytes → List (SocketAddr × Bytes)
connect_primary address [] = []
connect_primary address (digest ∷ digests) = (address, digest) ∷ connect_primary address digests
