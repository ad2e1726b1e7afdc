-- ===== src/Tests.antt =====
-- A committee of four authorities, stand-ins for the libraries, and the properties at concrete inputs.
pub mod Samples
pub mod Primary
pub mod Dag
pub mod Sequence
pub mod Tasks
pub mod Proposals
pub mod Connections
pub mod Waiters
pub mod Requests
