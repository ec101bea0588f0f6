-- ===== src/Witnesses.antt =====
-- Runs of the model at concrete inputs, and the properties at inputs where their conditions hold.
pub mod Samples
pub mod NetworkRuns
pub mod SwitchingRuns
pub mod RoutingRuns
pub mod AsicRuns
pub mod TransportRuns
pub mod DiscoveryRuns
