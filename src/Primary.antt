-- ===== src/Primary.antt =====
-- primary/src: the messages that a primary exchanges with other primaries and with its workers, and the
-- tasks that request, wait for and serve what is missing.
pub mod HeaderWaiter
pub mod CertificateWaiter
pub mod Helper
pub mod PayloadReceiver
pub mod Dispatch
use tusk_ubuntu.Prelude.{Bool, List}
use tusk_ubuntu.Config.{PublicKey, WorkerId}
use tusk_ubuntu.Crypto.{Digest}
use tusk_ubuntu.Messages.{Round, Header, Vote, Certificate}

pub data PrimaryMessage : Type 0 where
  header : Header → PrimaryMessage
  vote : Vote → PrimaryMessage
  certificate : Certificate → PrimaryMessage
  certificates_request : List Digest → (requestor : PublicKey) → PrimaryMessage

pub data PrimaryWorkerMessage : Type 0 where
  synchronize : List Digest → (target : PublicKey) → PrimaryWorkerMessage
  cleanup : Round → PrimaryWorkerMessage
  batch_silent : Round → Bool → PrimaryWorkerMessage

pub data WorkerPrimaryMessage : Type 0 where
  our_batch : Digest → WorkerId → WorkerPrimaryMessage
  others_batch : Digest → WorkerId → WorkerPrimaryMessage
