-- ===== src/Discovery.antt =====
-- discovery/: the messages by which machines find one another.
pub mod DiscoveryMessage
