-- ===== src/Lib.antt =====
-- Narwhal and Tusk: the mempool's primary and worker, and the consensus that orders its certificates.
--
-- A primary proposes headers (proposer), which other primaries check and vote for (core). A quorum of
-- votes makes a certificate (aggregators), which enters a DAG that the consensus flattens into a
-- sequence once a leader has enough support. Workers batch transactions, and the store keeps what the
-- tasks need and wakes those who wait for a key.
--
--   Prelude           Boolean tests, lists, machine words, maps, sets, results and outcomes
--   Config            config/src/lib.rs: Committee, its lookups and thresholds
--     Quorum            sets of authorities that meet the thresholds
--   Crypto            crypto/src/lib.rs: Digest, Signature::verify and verify_batch
--     Keys              the base64 form of keys
--   Messages          primary/src/messages.rs and error.rs: Header, Vote, Certificate
--     Quorum            what the checks of a certificate establish
--   Aggregators       primary/src/aggregators.rs: VotesAggregator and CertificatesAggregator
--     Tally, Votes, Certificates   sequences of votes and of certificates
--   Adversary         primary/src/adversary.rs: selected and direct_commit_selected
--     Ranks             how many authorities are silent
--   Store             store/src/lib.rs: the task that handles the commands
--     Obligations       the senders that wait for a key
--     Keys              the keys that the tasks write under
--   Core              primary/src/core.rs: the state, and actions on it
--     Synchronizer      primary/src/synchronizer.rs
--     Process           process_header, process_vote, process_certificate, the sanitizers
--     Run               one turn of `run`, with its cleanup
--   Consensus         consensus/src/lib.rs: State, and State::update
--     WellFormed        where a certificate stands in the DAG
--     Leaders           leader, linked, order_leaders
--     Flatten           order_dag
--     Process           the body of the loop of `run`, and the loop
--   Proposer          primary/src/proposer.rs
--   GarbageCollector  primary/src/garbage_collector.rs
--   Primary           primary/src/primary.rs: the messages of a primary
--     HeaderWaiter      primary/src/header_waiter.rs; CertificateWaiter, certificate_waiter.rs
--     Helper            primary/src/helper.rs; PayloadReceiver, payload_receiver.rs
--     Dispatch          the handlers of incoming messages in primary.rs
--   Worker            worker/src
--     BatchMaker, QuorumWaiter, Synchronizer   batch_maker.rs, quorum_waiter.rs, synchronizer.rs
--     Processor         processor.rs and primary_connector.rs
--     Helper            helper.rs
--     Dispatch          the handlers of incoming messages in worker.rs
--     Exchange          one worker fetches what another has processed
--   Network           network/src
--     Connection        reliable_sender.rs: Connection, with its buffer and its delay
--     ReliableSender, SimpleSender, Receiver   reliable_sender.rs, simple_sender.rs, receiver.rs
--   Tests             samples, and the results at concrete inputs
--
-- A digest and a public key are their 32 bytes read as a big-endian number, a socket address is a number.
-- A map is an association list and a set a list without repetition, in iteration order; a key absent from
-- a map gives `none`. Arithmetic of `u32`, `u64` and the 64-bit `usize` wraps, as it does in the release
-- profile. A `Result` is a sum. `expect` of an absent value is a panic, which is a value of `Outcome` or of
-- `Answer`, as is the lack of fuel. Two functions run on fuel. `order_dag` has two more than the DAG has
-- entries, enough since each enters the buffer at most once. The handlers of the core call one another,
-- two levels deep at most, since a second vote of ours for one header is refused; `header_at` has fuel 2.
--
-- SHA-512, ed25519, base64, RocksDB, serialization and the shuffle of addresses are parameters, most of
-- them gathered in `Primitives`, `Base64`, `Database` and the setup records. Timers, what a socket gives,
-- the order in which messages arrive and the select of each loop are inputs. What a task sends is a list in its state, and a cancel handler is the address of its message. In the core the
-- store answers at once. Logs, metrics, the generation of keys, the start-up of the tasks, the loop that
-- accepts connections, and the benchmark client are not modelled.
pub mod Prelude
pub mod Config
pub mod Crypto
pub mod Messages
pub mod Aggregators
pub mod Store
pub mod Core
pub mod Adversary
pub mod Consensus
pub mod GarbageCollector
pub mod Proposer
pub mod Worker
pub mod Primary
pub mod Network
pub mod Tests
