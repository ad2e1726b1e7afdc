-- ===== src/Network.antt =====
-- network/src: the senders, the connections that they keep, and the receiver.
pub mod Connection
pub mod ReliableSender
pub mod SimpleSender
pub mod Receiver
