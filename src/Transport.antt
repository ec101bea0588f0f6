-- ===== src/Transport.antt =====
-- transport/: the messages between the server and its clients, and what a client makes of them.
pub mod StateUpdate
pub mod ControlMessage
pub mod ClientSynchronizer
