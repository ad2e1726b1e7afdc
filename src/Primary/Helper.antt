-- ===== src/Primary/Helper.antt =====
-- primary/src/helper.rs: the task that answers the certificate requests of other primaries. Serialization
-- is a parameter; a certificate of our own store that cannot be read panics.
use tusk_ubuntu.Prelude.{Option, none, some, List, [], ◌∷◌, ◌++◌}
use tusk_ubuntu.Prelude.Result.{Result, ok, err}
use tusk_ubuntu.Prelude.Outcome.{Outcome, returned, expect, ◌>>=◌}
use tusk_ubuntu.Config.{PublicKey, SocketAddr, PrimaryAddresses, ConfigError, Committee, primary}
use tusk_ubuntu.Crypto.{Digest}
use tusk_ubuntu.Messages.{Certificate}
use tusk_ubuntu.Store.{Value, StoreError, Database, digest_key}
use tusk_ubuntu.Network.Connection.{Bytes}
use tusk_ubuntu.Primary.{PrimaryMessage, certificate}

pub record Setup (D : Type 0) : Type 0 where
  pub committee : Committee
  pub database : Database D
  pub decode_certificate : Value → Option Certificate
  pub encode : PrimaryMessage → Bytes

module _ {D : Type 0} (setup : Setup D) (store : D) where
  open setup use {committee, database, decode_certificate, encode}

  abbrev pub found :
      SocketAddr → Result StoreError (Option Value) → Outcome (List (SocketAddr × Bytes))
  found address (ok (some bytes)) =
      expect (decode_certificate bytes) >>= λ x. returned ((address, encode (certificate x)) ∷ [])
  found address (ok none) = returned []
  found address (err _) = returned []

  -- The loop over the digests of a request: the messages that are sent.
  unfoldable pub reply : SocketAddr → List Digest → Outcome (List (SocketAddr × Bytes))
  reply address [] = returned []
  reply address (digest ∷ digests) =
      found address (database.get store (digest_key digest)) >>= λ sent.
      reply address digests >>= λ rest. returned (sent ++ rest)

  abbrev reply_at :
      Result ConfigError PrimaryAddresses → List Digest → Outcome (List (SocketAddr × Bytes))
  reply_at (ok address) digests = reply address.primary_to_primary digests
  reply_at (err _) digests = returned []

  unfoldable pub answer : List Digest → PublicKey → Outcome (List (SocketAddr × Bytes))
  unfolding reply
  answer digests origin = reply_at (primary committee origin) digests
