-- ===== src/Core.antt =====
-- primary/src/core.rs and primary/src/synchronizer.rs: the state that the core keeps, and the actions
-- that change it. An action is a function from the state to the state and an answer: a value, an error,
-- a panic, or no answer for want of fuel. What goes out over the network and the channels is appended
-- to `sent`; a cancel handler is the address of its message. The store answers reads and writes at
-- once, and serialization is a parameter.
pub mod Actions
pub mod Synchronizer
pub mod Quiet
pub mod Process
pub mod Run
use tusk_ubuntu.Prelude.{ℕ, ◌≡◌, Option, none, some, List, [], ◌∷◌, ◌++◌}
use tusk_ubuntu.Prelude.Result.{Result, ok, err}
use tusk_ubuntu.Config.{PublicKey, SocketAddr, WorkerId, Committee}
use tusk_ubuntu.Crypto.{Digest, Primitives}
use tusk_ubuntu.Messages.{Round, Header, Vote, Certificate, DagError, store_error}
use tusk_ubuntu.Aggregators.{VotesAggregator, CertificatesAggregator}
use tusk_ubuntu.Store.{Key, Value, Database}

pub data Message : Type 0 where
  header : List SocketAddr → Header → Message
  vote : SocketAddr → Vote → Message
  certificate : List SocketAddr → Certificate → Message
  to_proposer : List Digest → Round → Message
  to_consensus : Certificate → Message
  sync_parents : List Digest → Header → Message
  sync_batches : List (Digest × WorkerId) → Header → Message
  wait_certificate : Certificate → Message

-- What the core is given and does not change.
pub record Setup (D : Type 0) : Type 0 where
  pub name : PublicKey
  pub committee : Committee
  pub gc_depth : Round
  pub primitives : Primitives
  pub database : Database D
  pub encode_header : Header → Value
  pub encode_certificate : Certificate → Value
  pub decode_certificate : Value → Option Certificate

pub record Core (D : Type 0) : Type 0 where
  pub store : D
  pub gc_round : Round
  pub last_voted : List (Round × List PublicKey)
  pub processing : List (Round × List Digest)
  pub current_header : Header
  pub votes_aggregator : VotesAggregator
  pub certificates_aggregators : List (Round × CertificatesAggregator)
  pub cancel_handlers : List (Round × List SocketAddr)
  pub sent : List Message
