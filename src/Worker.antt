-- ===== src/Worker.antt =====
-- worker/src: the batch maker, the quorum waiter and the processor that follow one another, the handlers
-- of incoming messages, the synchronizer, and the helper that serves batches.
pub mod BatchMaker
pub mod QuorumWaiter
pub mod Processor
pub mod Helper
pub mod Dispatch
pub mod Synchronizer
pub mod Exchange
