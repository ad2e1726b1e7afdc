-- ===== src/Primary/PayloadReceiver.antt =====
-- primary/src/payload_receiver.rs: the batches that other authorities report, put on record for the
-- verification of headers.
pub mod Payload
pub mod Available
use tusk_ubuntu.Prelude.{List, [], ◌∷◌}
use tusk_ubuntu.Config.{WorkerId}
use tusk_ubuntu.Crypto.{Digest}
use tusk_ubuntu.Store.{Database, payload_key}

module _ {D : Type 0} (database : Database D) where
  unfoldable pub receive : List (Digest × WorkerId) → D → D
  receive [] store = store
  receive ((digest, worker_id) ∷ reports) store =
      receive reports (database.put store (payload_key digest worker_id) [])
